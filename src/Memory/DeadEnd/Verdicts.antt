-- ===== src/Memory/DeadEnd/Verdicts.antt =====
-- The verdict on a reading, against a count of the signals that the reading gives.
use hunter_kinodynamic_rl.Prelude.{
  ℕ, ◌<◌, ◌≡◌, refl, inl, inr, Bool, true, false, ◌&&◌, Option, none, some, Bool-cases,
  Option-cases, arith, ◌∙◌, sym, subst,
}
use hunter_kinodynamic_rl.Prelude.Int.{pos, leb_ℤ}
use hunter_kinodynamic_rl.Prelude.Result.{ok}
use hunter_kinodynamic_rl.Floats.{Floats}
use hunter_kinodynamic_rl.Prelude.Dict.{lookup, has, lookup-insert_self, number_key}
use hunter_kinodynamic_rl.Memory.Graph.{TopologicalGraph, get_node, change_node, mark_dead_end}
use hunter_kinodynamic_rl.Memory.DeadEnd.{
  DeadEndEvidence, DeadEndVerdict, DeadEndDetectorConfig, Readings, evaluate_evidence, was_dead_end,
  verdict,
}
use hunter_kinodynamic_rl.Memory.DeadEnd.Signals.{
  how_many, signals, evidence_of, evaluate_evidence-evidence_of, vote_count-how_many,
}

module _ ⦃M : Floats⦄ where
  open M use {of_ℕ, div}

  -- Whether the graph has the node and has it marked.
  abbrev pub marked : TopologicalGraph → Option ℕ → Bool
  marked g none = false
  marked g (some node_id) = elim (lookup g.nodes node_id) [
    | none ↦ false
    | some node ↦ node.dead_end
  ]

  was_dead_end-marked :
      (g : TopologicalGraph) (node : Option ℕ) → was_dead_end g node ≡ ok (marked g node)
  unfolding was_dead_end get_node
  was_dead_end-marked g none = refl
  was_dead_end-marked g (some n) = elim (Option-cases (lookup g.nodes n)) [
    | inl e ↦ rw (e, marked) refl
    | inr (node, e) ↦ rw (e, marked) refl
  ]

  -- What is said of a reading at a node: a dead end when enough signals are given, with the share of
  -- them as the confidence, and a repeated one when the graph has the node marked already.
  pub record Judged (c : DeadEndDetectorConfig) (r : Readings) (g : TopologicalGraph)
      (node : Option ℕ) (v : DeadEndVerdict) : Type 0 where
    pub dead_end : v.is_dead_end ≡ leb_ℤ c.evidence_vote_threshold (pos (how_many (signals c r)))
    pub confidence : v.confidence ≡ div (of_ℕ (how_many (signals c r))) (of_ℕ 5)
    pub repeated : v.is_repeated ≡ (v.is_dead_end && marked g node)

  -- With a window of at least one sample, a reading always gets evidence and the evidence a verdict,
  -- with or without a node. Counted over the reading itself, where the distance counts as stalled
  -- when the history fills the window and the sample that begins the window exceeds the newest one
  -- by less than the bound: the verdict is a dead end exactly when at least the threshold of the
  -- five signals are given, its confidence is their number over five, and it is a repeated one
  -- exactly when it is a dead end and the graph has the node, marked.
  pub verdict-Judged :
      (c : DeadEndDetectorConfig) (r : Readings) (g : TopologicalGraph) (node : Option ℕ)
      → 0 < c.progress_stall_window_steps
      → (e : DeadEndEvidence) × (v : DeadEndVerdict) × (evaluate_evidence c r ≡ ok e)
        × (verdict c e g node ≡ ok v)
        × Judged c r g node v
  unfolding verdict
  verdict-Judged c r g node h =
      let n = vote_count-how_many c r in
      let t = leb_ℤ c.evidence_vote_threshold (pos (how_many (signals c r))) in
      let v : DeadEndVerdict = record {
        is_dead_end = t;
        confidence = div (of_ℕ (how_many (signals c r))) (of_ℕ 5);
        evidence = evidence_of c r;
        is_repeated = t && marked g node;
      } in
      (
        evidence_of c r,
        v,
        evaluate_evidence-evidence_of c r h,
        elim (Bool-cases t) [
          | inl o ↦ rw (n, o, was_dead_end-marked g node) refl
          | inr o ↦ rw (n, o) refl
        ],
        record { dead_end = refl; confidence = refl; repeated = refl },
      )

  marked-mark_dead_end :
      (n : ℕ) (flagged : Bool) (g : TopologicalGraph)
      → has g.nodes n ≡ true
      → marked (mark_dead_end n flagged g).1 (some n) ≡ flagged
  unfolding mark_dead_end change_node get_node
  marked-mark_dead_end n flagged g i = elim (Option-cases (lookup g.nodes n)) [
    | inl e ↦ ground arith
    | inr (node, e) ↦
        rw (e, lookup-insert_self g.nodes n (record node { dead_end = flagged }), marked) refl
  ]

  -- With a window of at least one sample, the same reading judged at a node of the graph before and
  -- after `mark_dead_end` has set that node's flag: both give a verdict, with the same answer
  -- whether it is a dead end, and the second is a repeated one exactly when it is a dead end and
  -- the flag was set to true.
  pub verdict-mark_dead_end :
      (c : DeadEndDetectorConfig) (r : Readings) (g : TopologicalGraph) (n : ℕ) (flagged : Bool)
      → 0 < c.progress_stall_window_steps
      → has g.nodes n ≡ true
      → (e : DeadEndEvidence) × (v : DeadEndVerdict) × (w : DeadEndVerdict) × (evaluate_evidence c r
          ≡ ok e)
        × (verdict c e g (some n) ≡ ok v)
        × (verdict c e (mark_dead_end n flagged g).1 (some n) ≡ ok w)
        × (w.is_dead_end ≡ v.is_dead_end)
        × (w.is_repeated ≡ (v.is_dead_end && flagged))
  verdict-mark_dead_end c r g n flagged h i =
      let (e, v, f, p, j) = verdict-Judged c r g (some n) h in
      let (e', w, f', q, k) = verdict-Judged c r (mark_dead_end n flagged g).1 (some n) h in
      let s : e' ≡ e = cc in
      let same : w.is_dead_end ≡ v.is_dead_end = k.dead_end ∙ sym j.dead_end in
      (
        e,
        v,
        w,
        f,
        p,
        subst (λ x. verdict c x (mark_dead_end n flagged g).1 (some n) ≡ ok w) s q,
        same,
        rw (k.repeated, same, marked-mark_dead_end n flagged g i) refl,
      )
