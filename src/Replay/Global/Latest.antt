-- ===== src/Replay/Global/Latest.antt =====
-- The global buffer as a bounded queue of the training transitions.
use hunter_kinodynamic_rl.Prelude.{
  All, ℕ, zero, suc, replicate, ◌<◌, ltb, ◌==◌, ==→eq, ◌≡◌, ◌≢◌, refl, sym, subst, ◌∙◌, inl, inr,
  true, false, some, List, [], ◌∷◌, ◌++◌, length, map, set, get_elem?, get_elem?-some,
  get_elem?-set_self, get_elem?-set_ne, String, Bool-cases, arith, if◌then◌else◌,
}
use hunter_kinodynamic_rl.Prelude.Result.{ok, err, value_error}
use hunter_kinodynamic_rl.Floats.{Floats, flag}
use hunter_kinodynamic_rl.Replay.Arrays.{RandomState}
use hunter_kinodynamic_rl.Replay.Ring.{Ring, push, overwrite, advance}
use hunter_kinodynamic_rl.Replay.Ring.Order.{
  IsRing, oldest_first, latest, pushes, push-IsRing, oldest_first-pushes,
}
use hunter_kinodynamic_rl.Replay.Global.{
  Tensors, Dims, Observation, GlobalRow, GlobalReplayBuffer, encode_failure_reason, blank_row,
}
use hunter_kinodynamic_rl.Replay.Global.Add.{
  GlobalTransition, quantize_map, singles, write_observations, write_option, write_nodes,
  write_global_row, is_train, add_global,
}

some_inj : {A : Type 0} {a b : A} → some a ≡ some b → a ≡ b
some_inj e = cc e

apart_of_test : (a b : ℕ) → (a == b) ≡ false → a ≢ b
apart_of_test a b h e = ground arith

module _ ⦃M : Floats⦄ ⦃T : Tensors⦄ where
  -- The shapes are the buffer's: every array is written as it is.
  pub record FitsObservation (d : Dims) (o : Observation) : Type 0 where
    pub maps : T.fit d.map_shape (quantize_map o.map_tensor) ≡ ok (quantize_map o.map_tensor)
    pub scalars : T.fit (d.n_scalars ∷ []) (singles o.scalar_tensor) ≡ ok (singles o.scalar_tensor)
    pub features :
        T.fit (d.n_candidates ∷ d.n_candidate_features ∷ []) (singles o.candidate_tensor)
        ≡ ok (singles o.candidate_tensor)
    pub masks : T.fit (d.n_candidates ∷ []) o.action_mask ≡ ok o.action_mask
    pub nodes :
        0 < d.node_rows
        → T.fit (d.node_rows ∷ d.node_features ∷ []) (singles o.node_tensor)
          ≡ ok (singles o.node_tensor)
    pub node_masks :
        0 < d.node_rows → T.fit (d.node_rows ∷ []) o.node_validity_mask ≡ ok o.node_validity_mask

  -- The integers are the columns': every one is written as it is.
  pub record FitsOption (t : GlobalTransition) : Type 0 where
    pub actions : T.fit_int 64 t.action ≡ ok t.action
    pub codes :
        T.fit_int 32 (encode_failure_reason t.failure_reason)
        ≡ ok (encode_failure_reason t.failure_reason)
    pub steps : T.fit_int 32 t.local_steps ≡ ok t.local_steps

  abbrev pub FitsTransition : Dims → GlobalTransition → Type 0
  FitsTransition d t = FitsObservation d t.obs × FitsObservation d t.next_obs × FitsOption t

  -- What a row keeps of an observation; without topology its node arrays are empty.
  abbrev pub kept_observation : Dims → Observation → Observation
  kept_observation d o = record {
    map_tensor = quantize_map o.map_tensor;
    scalar_tensor = singles o.scalar_tensor;
    candidate_tensor = singles o.candidate_tensor;
    action_mask = o.action_mask;
    node_tensor =
        if ltb 0 d.node_rows
        then singles o.node_tensor
        else T.zeros (d.node_rows ∷ d.node_features ∷ []);
    node_validity_mask =
        if ltb 0 d.node_rows then o.node_validity_mask else T.zeros (d.node_rows ∷ []);
  }

  unfoldable pub global_row_of : Dims → GlobalTransition → GlobalRow
  global_row_of d t = record {
    now = kept_observation d t.obs;
    next = kept_observation d t.next_obs;
    action = t.action;
    option_reward = M.single t.option_reward;
    mission_done = flag t.mission_done;
    subgoal_success = flag t.subgoal_success;
    failure_reason_code = encode_failure_reason t.failure_reason;
    local_steps = t.local_steps;
    exploration_gain = M.single t.exploration_gain;
    risk_integral = M.single t.risk_integral;
  }

  abbrev NoNodes : Dims → Observation → Type 0
  NoNodes d o =
      (o.node_tensor ≡ T.zeros (d.node_rows ∷ d.node_features ∷ []))
      × (o.node_validity_mask ≡ T.zeros (d.node_rows ∷ []))

  -- Without topology, the node arrays of every row are as the constructor made them.
  abbrev Untouched : Dims → GlobalRow → Type 0
  Untouched d row = ltb 0 d.node_rows ≡ false → NoNodes d row.now × NoNodes d row.next

  abbrev pub AllUntouched : Dims → List GlobalRow → Type 0
  AllUntouched d rows = (i : ℕ) (row : GlobalRow) → get_elem? rows i ≡ some row → Untouched d row

  row_of-Untouched : (d : Dims) (t : GlobalTransition) → Untouched d (global_row_of d t)
  unfolding global_row_of
  row_of-Untouched d t h = rw h ((refl, refl), (refl, refl))

  global_row_written :
      (d : Dims) (t : GlobalTransition) (old : GlobalRow)
      → FitsTransition d t
      → Untouched d old
      → write_global_row d t old ≡ (ok tt, global_row_of d t)
  unfolding write_global_row write_observations write_option write_nodes global_row_of
  global_row_written d t old (f, g, o) u = elim (Bool-cases (ltb 0 d.node_rows)) [
    | inl e ↦
        let p : 0 < d.node_rows = ground arith in
        rw
          (
            f.maps,
            g.maps,
            f.scalars,
            g.scalars,
            f.features,
            g.features,
            f.masks,
            g.masks,
            o.actions,
            o.codes,
            o.steps,
            e,
            f.nodes p,
            g.nodes p,
            f.node_masks p,
            g.node_masks p,
          )
          refl
    | inr e ↦
        let ((a, b), (c, k)) = u e in
        rw
          (
            f.maps, g.maps, f.scalars, g.scalars, f.features, g.features, f.masks, g.masks,
            o.actions, o.codes, o.steps, e, a, b, c, k,
          )
          refl
  ]

  set-Untouched :
      (d : Dims) (t : GlobalTransition) (rows : List GlobalRow) (k : ℕ)
      → k < length rows
      → AllUntouched d rows
      → AllUntouched d (set rows k (global_row_of d t))
  set-Untouched d t rows k l u i row e = elim (Bool-cases (k == i)) [
    | inl h ↦
        let s = get_elem?-set_self rows k (global_row_of d t) l in
        let q : some (global_row_of d t) ≡ some row =
          sym s
          ∙ subst (λ j. get_elem? (set rows k (global_row_of d t)) j ≡ some row) (sym (==→eq k i h))
              e in
        subst (Untouched d) (some_inj q) (row_of-Untouched d t)
    | inr h ↦
        u i row
          (sym (get_elem?-set_ne rows k i (global_row_of d t) (λ q. apart_of_test k i h q)) ∙ e)
  ]

  -- The arrays as the constructor makes them.
  pub blank-Untouched : (d : Dims) (n : ℕ) → AllUntouched d (replicate n (blank_row d))
  unfolding blank_row
  blank-Untouched d (suc n) zero row e =
      subst (Untouched d) (some_inj e) (λ h. ((refl, refl), (refl, refl)))
  blank-Untouched d (suc n) (suc i) row e = blank-Untouched d n i row e
  blank-Untouched d zero i row e = cc

  module _ ⦃R : RandomState⦄ where
    add_global-row :
        (t : GlobalTransition) (mode : String) (b : GlobalReplayBuffer)
        → is_train mode ≡ true
        → IsRing b.ring
        → AllUntouched b.dims b.ring.rows
        → FitsTransition b.dims t
        → add_global t mode b ≡ (ok tt, record b { ring = push (global_row_of b.dims t) b.ring })
    unfolding add_global
    add_global-row t mode b m v u f =
        let (old, e) =
          get_elem?-some b.ring.rows b.ring.ptr (omega (arith, v.length_rows, v.ptr_lt)) in
        rw (m, e, global_row_written b.dims t old f (u b.ring.ptr old e)) refl

    add_global-refused :
        (t : GlobalTransition) (mode : String) (b : GlobalReplayBuffer)
        → is_train mode ≡ false
        → add_global t mode b ≡ (err value_error, b)
    unfolding add_global
    add_global-refused t mode b m = rw m refl

    -- One call of `add` after the other, each with its mode.
    abbrev pub adds_global :
        List (String × GlobalTransition) → GlobalReplayBuffer → GlobalReplayBuffer
    adds_global [] b = b
    adds_global ((mode, t) ∷ ts) b = adds_global ts (add_global t mode b).1

    -- The transitions that came with the mode `train`.
    abbrev pub trained : List (String × GlobalTransition) → List GlobalTransition
    trained [] = []
    trained ((mode, t) ∷ ts) = if is_train mode then t ∷ trained ts else trained ts

    push-Untouched :
        (t : GlobalTransition) (d : Dims) (r : Ring GlobalRow)
        → IsRing r
        → AllUntouched d r.rows
        → AllUntouched d (push (global_row_of d t) r).rows
    unfolding push overwrite advance
    push-Untouched t d r v u =
        set-Untouched d t r.rows r.ptr (omega (arith, v.length_rows, v.ptr_lt)) u

    adds_global-pushes :
        (ts : List (String × GlobalTransition)) (b : GlobalReplayBuffer)
        → IsRing b.ring
        → AllUntouched b.dims b.ring.rows
        → All (FitsTransition b.dims) (trained ts)
        → adds_global ts b
          ≡ record b { ring = pushes (map (global_row_of b.dims) (trained ts)) b.ring }
    unfolding pushes
    adds_global-pushes [] b v u f = refl
    adds_global-pushes ((mode, t) ∷ ts) b v u f = elim (Bool-cases (is_train mode)) [
      | inl m ↦
          let (g, gs) =
            subst (λ c. All (FitsTransition b.dims) (if c then t ∷ trained ts else trained ts)) m
              f in
          let row = global_row_of b.dims t in
          rw (m, add_global-row t mode b m v u g)
            (adds_global-pushes ts (record b { ring = push row b.ring }) (push-IsRing row b.ring v)
              (push-Untouched t b.dims b.ring v u) gs)
      | inr m ↦
          let gs =
            subst (λ c. All (FitsTransition b.dims) (if c then t ∷ trained ts else trained ts)) m
              f in
          rw (m, add_global-refused t mode b m) (adds_global-pushes ts b v u gs)
    ]

    -- Calls of `add` with any modes, on a buffer whose pointer and size are well formed and whose rows
    -- have the constructor's node arrays if topology is off, where the arrays of the transitions that
    -- come with the mode `train` have the buffer's shapes and their actions, failure codes and step
    -- counts are integers that their columns of 64 and 32 bits take as they are: the buffer holds its old rows and then one
    -- row for each of those transitions, in order, cut to the capacity from the front. No other call
    -- leaves a trace.
    pub adds_global-latest :
        (ts : List (String × GlobalTransition)) (b : GlobalReplayBuffer)
        → IsRing b.ring
        → AllUntouched b.dims b.ring.rows
        → All (FitsTransition b.dims) (trained ts)
        → oldest_first (adds_global ts b).ring
          ≡ latest b.ring.capacity (oldest_first b.ring ++ map (global_row_of b.dims) (trained ts))
    adds_global-latest ts b v u f =
        rw (adds_global-pushes ts b v u f)
          (oldest_first-pushes (map (global_row_of b.dims) (trained ts)) b.ring v)
