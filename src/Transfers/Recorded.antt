-- ===== src/Transfers/Recorded.antt =====
-- A download group that raises nothing has recorded every action, in whatever order it completed.
use mathlib.Core.Logic.Or
use mathlib.Core.List.{Mem, Perm, mem-cons, not-mem-nil}
use mathlib.Core.List.Perm
use gamehub.Prelude.{
  ◌≡◌, refl, ◌⊎◌, inl, inr, ℕ, String, true, ◌==◌, any, Option, none, some, List, [], ◌∷◌, map,
  arith, Option-cases, Bool-cases, leb, min, max, suc, length,
}
use gamehub.Prelude.Dict
use gamehub.Prelude.Dict.{Dict}
use gamehub.Planner.Types.{PlanAction}
use gamehub.Transfers.{
  Pool, record_checksum, collect, one_by_one, in_parallel, apply_download_group,
}

-- All checksums of the actions, in the order of the list.
record_all : List PlanAction → Dict String → Dict String
record_all [] d = d
record_all (a ∷ actions) d = record_all actions (record_checksum a d)

-- Actions for one content id expect one checksum.
abbrev pub IsConsistent : List PlanAction → Type 0
IsConsistent actions =
    (a b : PlanAction)
    → Mem a actions
    → Mem b actions
    → a.content_id ≡ b.content_id
    → a.expected_sha256 ≡ b.expected_sha256

-- The list has an action for the id, or the table has its checksum already.
record_all-lookup :
    (k v : String) (actions : List PlanAction) (d : Dict String)
    → ((b : PlanAction) → Mem b actions → b.content_id ≡ k → b.expected_sha256 ≡ v)
    → (any (λ (b : PlanAction). k == b.content_id) actions ≡ true) ⊎ (Dict.lookup k d ≡ some v)
    → Dict.lookup k (record_all actions d) ≡ some v
unfolding record_all
record_all-lookup k v [] d agree (inl h) = cc
record_all-lookup k v [] d agree (inr h) = h
record_all-lookup k v (a ∷ actions) d agree h =
    record_all-lookup k v actions (record_checksum a d) (λ b m e. agree b (mem-cons.1 (Or.inr m)) e)
      (elim (Bool-cases (any (λ (b : PlanAction). k == b.content_id) actions)) [
        | inl later ↦ inl later
        | inr here ↦ inr (
            ground (
              arith,
              Dict.lookup-insert k a.content_id a.expected_sha256 d,
              agree a (mem-cons.1 (Or.inl refl)),
            ))
      ])

-- An action of the list passes the test for its own id.
any-mem :
    (a : PlanAction) (actions : List PlanAction)
    → Mem a actions
    → any (λ (b : PlanAction). a.content_id == b.content_id) actions ≡ true
any-mem a [] m = absurd (not-mem-nil m)
any-mem a (b ∷ actions) m =
    Or.elim (hlevel) (mem-cons.0 m) (λ e. ground arith)
      (λ later. ground (arith, any-mem a actions later))

collect-record_all :
    (completed : List (PlanAction × Option String)) (d : Dict String)
    → (collect completed d).0 ≡ none
    → (collect completed d).1
      ≡ record_all (map (λ (e : PlanAction × Option String). e.0) completed) d
unfolding collect record_all
collect-record_all [] d h = refl
collect-record_all ((a, some error) ∷ rest) d h = cc
collect-record_all ((a, none) ∷ rest) d h = collect-record_all rest (record_checksum a d) h

no_error : {error : String} → ¬ (some error ≡ none)
no_error h = cc

module _ (pool : Pool) where
  one_by_one-record_all :
      (actions : List PlanAction) (d : Dict String) (w : pool.W)
      → (one_by_one pool actions d w).error ≡ none
      → (one_by_one pool actions d w).checksums ≡ record_all actions d
  unfolding one_by_one record_all
  one_by_one-record_all [] d w h = refl
  one_by_one-record_all (a ∷ actions) d w h = elim (Option-cases (pool.download_one a w).0) [
    | inl e ↦
        rw (e, one_by_one)
          (one_by_one-record_all actions (record_checksum a d) _ (rw (e, one_by_one) at h))
    | inr (error, e) ↦ absurd (no_error (rw (e, one_by_one) at h))
  ]

  -- The pool completes every action that it is given once.
  abbrev pub CompletesAll : Type 0
  CompletesAll =
      (workers : ℕ) (actions : List PlanAction) (w : pool.W)
      → Perm (map (λ (e : PlanAction × Option String). e.0) (pool.as_completed workers actions w).0)
          actions

  -- The actions in the order in which their checksums were written.
  group-record_all :
      CompletesAll
      → (n : ℕ) (actions : List PlanAction) (d : Dict String) (w : pool.W)
      → (apply_download_group pool n actions d w).error ≡ none
      → (done : List PlanAction) × Perm done actions
        × ((apply_download_group pool n actions d w).checksums ≡ record_all done d)
  unfolding apply_download_group in_parallel record_all
  group-record_all completes n [] d w h = ([], Perm.refl [], refl)
  group-record_all completes n (b ∷ actions) d w h =
      let workers = min (max 1 n) (suc (length actions)) in
      let completed = (pool.as_completed workers (b ∷ actions) w).0 in
      elim (Bool-cases (leb workers 1)) [
        | inl e ↦ (
          b ∷ actions,
          Perm.refl (b ∷ actions),
          rw e (one_by_one-record_all (b ∷ actions) d w (rw e at h)),
        )
        | inr e ↦ (
          map (λ (c : PlanAction × Option String). c.0) completed,
          completes workers (b ∷ actions) w,
          rw e (collect-record_all completed d (rw e at h)),
        )
      ]

  -- Whatever the number of threads and the order of completion, a group of consistent actions that
  -- raises nothing leaves the expected checksum of every action in the table.
  pub apply_download_group-records :
      CompletesAll
      → (n : ℕ) (actions : List PlanAction) (d : Dict String) (w : pool.W) (a : PlanAction)
      → IsConsistent actions
      → (apply_download_group pool n actions d w).error ≡ none
      → Mem a actions
      → Dict.lookup a.content_id (apply_download_group pool n actions d w).checksums
        ≡ some a.expected_sha256
  apply_download_group-records completes n actions d w a consistent h m =
      let (done, perm, same) = group-record_all completes n actions d w h in
      rw same (
        record_all-lookup a.content_id a.expected_sha256 done d
          (λ b mb e. consistent b a ((Perm.mem_iff perm).0 mb) m e)
          (inl (any-mem a done ((Perm.mem_iff perm).1 m))))
