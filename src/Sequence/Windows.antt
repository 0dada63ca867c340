-- ===== src/Sequence/Windows.antt =====
-- The windows that the index of a store lists, and the windows there are.
use hunter_kinodynamic_rl.Prelude.{
  ℕ, ◌+◌, ◌-◌, ◌≤◌, ◌<◌, ◌≡◌, refl, sym, subst, ◌↔◌, ◌⊎◌, inl, inr, true, List, [], ◌∷◌, ◌++◌, map,
  length, arith,
}
use hunter_kinodynamic_rl.Prelude.Int.{pos, ltb_ℤ}
use hunter_kinodynamic_rl.Prelude.Result.{ok}
use hunter_kinodynamic_rl.Sequence.{
  SequenceWindow, SequenceIndex, burn, store_windows, sequence_index, build,
}
use hunter_kinodynamic_rl.Sequence.Burn.{Run, Begins, burn-Run, burn_unique}
use hunter_kinodynamic_rl.Sequence.Runs.{Run-append, uniform-Run}
use hunter_kinodynamic_rl.Sequence.Made.{
  Listed, Episode, stored, Made, Between, Lists, episode_windows-Lists,
}

-- A window of the episode: `size` steps of one reset epoch, with the steps of that epoch right
-- before them, all of them, as its burn-in.
abbrev pub IsWindow : ℕ → Episode → SequenceWindow → Type 0
IsWindow size e w =
    (w.episode_id ≡ e.header.episode_id)
    × ((w.group_id ≡ e.header.group_id)
        × ((w.split_id ≡ e.header.split_id)
            × ((w.episode_sha256 ≡ e.digest)
                × ((w.loss_end ≡ w.loss_start + size)
                    × ((w.loss_end ≤ e.header.step_count)
                        × ((w.burn_start ≤ w.loss_start)
                            × (Run e.resets w.reset_epoch w.burn_start w.loss_end
                                × Begins e.resets w.reset_epoch w.burn_start)))))))

abbrev pub Indexes : ℕ → List Episode → SequenceWindow → Type 0
Indexes size [] w = ⊥
Indexes size (e ∷ es) w = IsWindow size e w ⊎ Indexes size es w

-- Every episode has a reset epoch for each of its steps.
abbrev pub Complete : List Episode → Type 0
Complete [] = Unit
Complete (e ∷ es) = (e.header.step_count ≤ length e.resets) × Complete es

Listed-append :
    (w : SequenceWindow) (xs ys : List SequenceWindow)
    → Listed w (xs ++ ys) ↔ (Listed w xs ⊎ Listed w ys)
Listed-append w [] ys = (λ l. inr l, λ l. elim l [ inl a ↦ absurd a | inr b ↦ b ])
Listed-append w (x ∷ xs) ys =
    let (to, from) = Listed-append w xs ys in
    (
      λ l. elim l [
        | inl q ↦ inl (inl q)
        | inr r ↦ elim (to r) [ inl a ↦ inl (inr a) | inr b ↦ inr b ]
      ],
      λ l. elim l [
        | inl a ↦ elim a [ inl q ↦ inl q | inr r ↦ inr (from (inl r)) ]
        | inr b ↦ inr (from (inr b))
      ],
    )

Made-IsWindow :
    (size : ℕ) (e : Episode) (w : SequenceWindow)
    → w.loss_start + size ≤ e.header.step_count
    → e.header.step_count ≤ length e.resets
    → Made size e w
    → IsWindow size e w
Made-IsWindow size e w h k (epoch, (q, (u, made))) =
    let (b, (run, begins)) = burn-Run e.resets epoch w.loss_start in
    let long = (uniform-Run e.resets epoch size w.loss_start (omega arith)).0 u in
    let s = w.loss_start in
    subst (λ v. IsWindow size e v) (sym made)
      (
        refl,
        (
          refl,
          (
            refl,
            (
              refl,
              (
                refl,
                (
                  h,
                  (
                    b,
                    (
                      Run-append e.resets epoch (burn e.resets epoch s) s (s + size) run long,
                      begins,
                    ),
                  ),
                ),
              ),
            ),
          ),
        ),
      )

IsWindow-Made :
    (size : ℕ) (e : Episode) (w : SequenceWindow)
    → 0 < size
    → e.header.step_count ≤ length e.resets
    → IsWindow size e w
    → Made size e w
IsWindow-Made size e w p k (i, (g, (s, (d, (f, (h, (b, (run, begins)))))))) =
    let at = run w.loss_start b (omega arith) in
    let burn_at =
      burn_unique e.resets w.reset_epoch w.loss_start w.burn_start b
        (λ j l m. run j l (omega arith)) begins in
    let u =
      (uniform-Run e.resets w.reset_epoch size w.loss_start (omega arith)).1
        (λ j l m. run j (omega arith) (omega arith)) in
    (w.reset_epoch, (at, (u, rw (sym i, sym g, sym s, sym d, sym f, burn_at) refl)))

Lists-IsWindow :
    (size : ℕ) (e : Episode) (ws : List SequenceWindow)
    → 0 < size
    → e.header.step_count ≤ length e.resets
    → Lists size 0 (e.header.step_count + 1 - size) e ws
    → (w : SequenceWindow) → Listed w ws ↔ IsWindow size e w
unfolding Lists Between
Lists-IsWindow size e ws p k h w = (
  λ l. let (lo, (hi, made)) = (h w).0 l in Made-IsWindow size e w (omega (arith, hi)) k made,
  λ i.
      let (_, (_, (_, (_, (f, (g, _)))))) = i in
      (h w).1 (omega arith, (omega (arith, f, g), IsWindow-Made size e w p k i)),
)

store_windows-Indexes :
    (size : ℕ) (es : List Episode)
    → 0 < size
    → Complete es
    → (ws : List SequenceWindow) × ((store_windows size (map stored es) ≡ ok ws)
        × ((w : SequenceWindow) → Listed w ws ↔ Indexes size es w))
unfolding store_windows
store_windows-Indexes size [] p c = ([], (refl, λ w. (λ l. l, λ i. i)))
store_windows-Indexes size (e ∷ es) p (k, c) =
    let (ws, (r, l)) =
      episode_windows-Lists size (e.header.step_count + 1 - size) 0 e (omega arith) p in
    let (more, (q, m)) = store_windows-Indexes size es p c in
    let here = Lists-IsWindow size e ws p k l in
    (
      ws ++ more,
      (
        rw (r, q) refl,
        λ w.
            let (to, from) = Listed-append w ws more in
            (
              λ i. elim (to i) [ inl a ↦ inl ((here w).0 a) | inr b ↦ inr ((m w).0 b) ],
              λ i. from (elim i [ inl a ↦ inl ((here w).1 a) | inr b ↦ inr ((m w).1 b) ]),
            ),
      ),
    )

-- Over a store whose episodes it can read and have a reset epoch for each step, and for a positive
-- loss window, `build` returns, and the index lists just the windows there are: the runs of that
-- many steps of an episode within one reset epoch, each with the episode's identifiers and digest
-- and a burn-in that begins where the run of its epoch begins.
pub build-Indexes :
    (es : List Episode) (size : ℕ)
    → 0 < size
    → Complete es
    → (index : SequenceIndex) × ((build (map stored es) (pos size) ≡ ok index)
        × ((w : SequenceWindow) → Listed w index.windows ↔ Indexes size es w))
unfolding build
build-Indexes es size p c =
    let (ws, (r, l)) = store_windows-Indexes size es p c in
    let positive : ltb_ℤ (pos 0) (pos size) ≡ true = ground arith in
    (sequence_index (pos size) ws, (rw (positive, r) refl, l))
