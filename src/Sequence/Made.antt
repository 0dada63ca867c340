-- ===== src/Sequence/Made.antt =====
-- The windows that the inner loop makes over one episode, start by start.
use hunter_kinodynamic_rl.Prelude.{
  String, ℕ, zero, suc, ◌+◌, ◌-◌, ◌≤◌, ◌<◌, ◌≡◌, refl, sym, ap, subst, if◌then◌else◌, ◌∙◌, ◌↔◌, ◌⊎◌,
  inl, inr, true, false, none, some, Option, List, [], ◌∷◌, length, take, drop, get_elem?,
  get_elem?-some, Bool-cases, arith,
}
use hunter_kinodynamic_rl.Prelude.Int.{ℤ}
use hunter_kinodynamic_rl.Prelude.Result.{Result, ok}
use hunter_kinodynamic_rl.Sequence.{
  SequenceWindow, EpisodeHeader, Stored, uniform, window_at, with_start, episode_windows,
}
use hunter_kinodynamic_rl.Sequence.Burn.{eq_or_ne}

abbrev pub Listed : SequenceWindow → List SequenceWindow → Type 0
Listed w [] = ⊥
Listed w (x ∷ xs) = (w ≡ x) ⊎ Listed w xs

-- An episode that the store reads.
pub record Episode : Type 0 where
  pub digest : String
  pub header : EpisodeHeader
  pub resets : List ℤ

abbrev pub stored : Episode → Stored
stored e = record { digest = e.digest; loaded = ok (e.header, e.resets) }

-- The window that the inner loop makes at its own start.
abbrev pub Made : ℕ → Episode → SequenceWindow → Type 0
Made size e w =
    (epoch : ℤ) × ((get_elem? e.resets w.loss_start ≡ some epoch)
      × ((uniform epoch (take size (drop w.loss_start e.resets)) ≡ true)
          × (w ≡ window_at e.digest e.header e.resets size w.loss_start epoch)))

unfoldable pub Between : ℕ → ℕ → ℕ → Episode → SequenceWindow → Type 0
Between size start count e w =
    (start ≤ w.loss_start) × ((w.loss_start < start + count) × Made size e w)

unfoldable pub Lists : ℕ → ℕ → ℕ → Episode → List SequenceWindow → Type 0
Lists size start count e ws = (w : SequenceWindow) → Listed w ws ↔ Between size start count e w

some-eq : (a b : ℤ) → ◌≡◌ {A = Option ℤ} (some a) (some b) → a ≡ b
some-eq a b q = ap (λ o. elim o [ none ↦ a | some x ↦ x ]) q

Made-window_at :
    (size start : ℕ) (e : Episode) (epoch : ℤ) (w : SequenceWindow)
    → get_elem? e.resets start ≡ some epoch
    → w.loss_start ≡ start
    → Made size e w
    → (uniform epoch (take size (drop start e.resets)) ≡ true)
      × (w ≡ window_at e.digest e.header e.resets size start epoch)
Made-window_at size start e epoch w q s (ep, (p, (u, k))) =
    let t : ep ≡ epoch = some-eq ep epoch (sym p ∙ ap (λ j. get_elem? e.resets j) s ∙ q) in
    let v = subst (λ j. uniform ep (take size (drop j e.resets)) ≡ true) s u in
    (
      subst (λ x. uniform x (take size (drop start e.resets)) ≡ true) t v,
      k
          ∙ ap (λ j. window_at e.digest e.header e.resets size j ep) s
          ∙ ap (λ x. window_at e.digest e.header e.resets size start x) t,
    )

-- One more start, with a window or without.
Lists-cons :
    (size start count : ℕ) (e : Episode) (epoch : ℤ) (ws : List SequenceWindow)
    → get_elem? e.resets start ≡ some epoch
    → uniform epoch (take size (drop start e.resets)) ≡ true
    → Lists size (suc start) count e ws
    → Lists size start (suc count) e (window_at e.digest e.header e.resets size start epoch ∷ ws)
unfolding Lists Between
Lists-cons size start count e epoch ws q u h w = (
  λ l. elim l [
    | inl k ↦
        subst (λ v. Between size start (suc count) e v) (sym k)
          (omega arith, (omega arith, (epoch, (q, (u, refl)))))
    | inr r ↦ let (lo, (hi, made)) = (h w).0 r in (omega (arith, lo), (omega (arith, hi), made))
  ],
  λ b.
      let (lo, (hi, made)) = b in
      elim (eq_or_ne w.loss_start start) [
        | inl s ↦ inl (Made-window_at size start e epoch w q s made).1
        | inr n ↦ inr ((h w).1 (omega (arith, lo, n), (omega (arith, hi), made)))
      ],
)

Lists-skip :
    (size start count : ℕ) (e : Episode) (epoch : ℤ) (ws : List SequenceWindow)
    → get_elem? e.resets start ≡ some epoch
    → uniform epoch (take size (drop start e.resets)) ≡ false
    → Lists size (suc start) count e ws
    → Lists size start (suc count) e ws
unfolding Lists Between
Lists-skip size start count e epoch ws q u h w = (
  λ r. let (lo, (hi, made)) = (h w).0 r in (omega (arith, lo), (omega (arith, hi), made)),
  λ b.
      let (lo, (hi, made)) = b in
      elim (eq_or_ne w.loss_start start) [
        | inl s ↦ let v = (Made-window_at size start e epoch w q s made).0 in absurd (ground arith)
        | inr n ↦ (h w).1 (omega (arith, lo, n), (omega (arith, hi), made))
      ],
)

with_start-ok :
    (size start : ℕ) (e : Episode) (epoch : ℤ) (o : Option ℤ) (ws : List SequenceWindow)
    (later : Result (List SequenceWindow))
    → o ≡ some epoch
    → later ≡ ok ws
    → with_start e.digest e.header e.resets size start later o
      ≡ ok (
          if uniform epoch (take size (drop start e.resets))
          then window_at e.digest e.header e.resets size start epoch ∷ ws
          else ws)
with_start-ok size start e epoch o ws later q r =
    rw (q, r)
      (elim (Bool-cases (uniform epoch (take size (drop start e.resets)))) [
        | inl u ↦ rw u refl
        | inr u ↦ rw u refl
      ])

-- From a start on, the inner loop returns the windows of the starts there are.
pub episode_windows-Lists :
    (size count start : ℕ) (e : Episode)
    → count ≤ suc (length e.resets) - size - start
    → 0 < size
    → (ws : List SequenceWindow) × ((episode_windows e.digest e.header e.resets size count start
          ≡ ok ws)
        × Lists size start count e ws)
unfolding episode_windows Lists Between
episode_windows-Lists size zero start e h p = (
  [],
  (refl, λ w. (λ l. absurd l, λ b. let (lo, (hi, made)) = b in absurd (omega (arith, lo, hi)))),
)
episode_windows-Lists size (suc count) start e h p =
    let (epoch, q) = get_elem?-some e.resets start (omega arith) in
    let (ws, (r, l)) = episode_windows-Lists size count (suc start) e (omega arith) p in
    elim (Bool-cases (uniform epoch (take size (drop start e.resets)))) [
      | inl u ↦ (
        window_at e.digest e.header e.resets size start epoch ∷ ws,
        (
          with_start-ok size start e epoch (get_elem? e.resets start) ws _ q r ∙ rw u refl,
          Lists-cons size start count e epoch ws q u l,
        ),
      )
      | inr u ↦ (
        ws,
        (
          with_start-ok size start e epoch (get_elem? e.resets start) ws _ q r ∙ rw u refl,
          Lists-skip size start count e epoch ws q u l,
        ),
      )
    ]
