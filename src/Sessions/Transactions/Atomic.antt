-- ===== src/Sessions/Transactions/Atomic.antt =====
-- A transaction of core/storage/application_state_store.py takes effect as a whole or not at all.
use salesinfo_api_v.Base.{
  ◌≡◌, ◌≢◌, refl, ◌∙◌, ap, Bool, true, false, arith, List, [], ◌∷◌, inl, inr, Bool-cases, ◌⊎◌, map,
  ◌&&◌, ◌||◌, if◌then◌else◌,
}
use salesinfo_api_v.Sessions.{Driver}
use salesinfo_api_v.Sessions.Transactions.{
  Statement, Block, Exit, done, failed, aborted, exit, run_all, run_block, restored, store_ended,
  transaction,
}

-- What PostgreSQL and its driver document, for one connection at a time and statements that do not control
-- transactions: `view` is the database as the connection sees it, `effect` what a statement that succeeds
-- does, and `doomed` says that the transaction has failed, so that the server refuses every statement up
-- to its end and its COMMIT rolls back. A statement that the driver refuses by itself changes nothing.
pub record IsTransactional {C D Q : Type 0} (d : Driver C D Q) (view : C × D → D)
    (effect : Q → D → D) : Type 0 where
  pub doomed : C → Bool
  pub set_keeps : (b : Bool) (s : C × D) → (d.set_autocommit b s).0.1 ≡ s.1
  pub set_mode :
      (b : Bool) (s : C × D)
      → (d.set_autocommit b s).1 ≡ true
      → d.autocommit (d.set_autocommit b s).0.0 ≡ b
  pub set_view :
      (s : C × D) → (d.set_autocommit false s).1 ≡ true → view (d.set_autocommit false s).0 ≡ s.1
  pub set_sound :
      (s : C × D)
      → (d.set_autocommit false s).1 ≡ true
      → doomed (d.set_autocommit false s).0.0 ≡ false
  pub execute_keeps : (q : Q) (s : C × D) → d.autocommit s.0 ≡ false → (d.execute q s).0.1 ≡ s.1
  pub execute_mode : (q : Q) (s : C × D) → d.autocommit (d.execute q s).0.0 ≡ d.autocommit s.0
  pub execute_view :
      (q : Q) (s : C × D)
      → d.autocommit s.0 ≡ false
      → doomed s.0 ≡ false
      → (d.execute q s).1 ≡ true
      → (view (d.execute q s).0 ≡ effect q (view s)) × (doomed (d.execute q s).0.0 ≡ false)
  pub execute_raised :
      (q : Q) (s : C × D)
      → d.autocommit s.0 ≡ false
      → doomed s.0 ≡ false
      → (d.execute q s).1 ≡ false
      → (doomed (d.execute q s).0.0 ≡ true)
        ⊎ ((view (d.execute q s).0 ≡ view s) × (doomed (d.execute q s).0.0 ≡ false))
  pub execute_doomed :
      (q : Q) (s : C × D)
      → d.autocommit s.0 ≡ false
      → doomed s.0 ≡ true
      → doomed (d.execute q s).0.0 ≡ true
  pub commit_view :
      (s : C × D) → doomed s.0 ≡ false → (d.commit s).1 ≡ true → (d.commit s).0.1 ≡ view s
  pub commit_doomed : (s : C × D) → doomed s.0 ≡ true → (d.commit s).0.1 ≡ s.1
  pub rollback_keeps : (s : C × D) → (d.rollback s).0.1 ≡ s.1

-- The statements, one after another.
abbrev pub effects : {D Q : Type 0} → (Q → D → D) → List Q → D → D
effects effect [] x = x
effects effect (q ∷ qs) x = effects effect qs (effect q x)

module _ {C D Q : Type 0} (d : Driver C D Q) where
  -- The statements of a block that return, as it runs.
  unfoldable pub returned_of : List (Statement Q) → C × D → List Q
  returned_of [] s = []
  returned_of (q ∷ qs) s =
      let r = d.execute q.query s in
      let rest = returned_of qs r.0 in if r.1 then q.query ∷ rest else rest

  -- Whether all of them return.
  unfoldable pub all_return : List (Statement Q) → C × D → Bool
  all_return [] s = true
  all_return (q ∷ qs) s = let r = d.execute q.query s in r.1 && all_return qs r.0

  returned_of_all :
      (qs : List (Statement Q)) (s : C × D)
      → all_return qs s ≡ true
      → returned_of qs s ≡ map (λ q. q.query) qs
  unfolding returned_of all_return
  returned_of_all [] s h = refl
  returned_of_all (q ∷ qs) s h = elim (Bool-cases (d.execute q.query s).1) [
    | inl ok ↦
        rw (ok, returned_of)
          (ap (◌∷◌ q.query) (returned_of_all qs (d.execute q.query s).0 (rw (ok, all_return) at h)))
    | inr err ↦ absurd (ground (arith, rw (err, all_return) at h))
  ]

module _ {C D Q : Type 0} (d : Driver C D Q) (view : C × D → D) (effect : Q → D → D)
    (law : IsTransactional d view effect) where
  pub run_all-keeps :
      (qs : List (Statement Q)) (last : Exit) (s : C × D)
      → d.autocommit s.0 ≡ false
      → ((run_all d qs last s).0.1 ≡ s.1) × (d.autocommit (run_all d qs last s).0.0 ≡ false)
  unfolding run_all
  run_all-keeps [] last s off = (refl, off)
  run_all-keeps (q ∷ qs) last s off =
      let keeps = law.execute_keeps q.query s off in
      let mode = law.execute_mode q.query s in
      let rest = run_all-keeps qs last (d.execute q.query s).0 (mode ∙ off) in
      elim (Bool-cases ((d.execute q.query s).1 || q.caught)) [
        | inl on ↦ rw (on, run_all) (rest.0 ∙ keeps, rest.1)
        | inr stopped ↦ rw (stopped, run_all) (keeps, mode ∙ off)
      ]

  -- A failed transaction stays one.
  run_all-doomed :
      (qs : List (Statement Q)) (last : Exit) (s : C × D)
      → d.autocommit s.0 ≡ false
      → law.doomed s.0 ≡ true
      → law.doomed (run_all d qs last s).0.0 ≡ true
  unfolding run_all
  run_all-doomed [] last s off lost = lost
  run_all-doomed (q ∷ qs) last s off lost =
      let still = law.execute_doomed q.query s off lost in
      let mode = law.execute_mode q.query s in
      let rest = run_all-doomed qs last (d.execute q.query s).0 (mode ∙ off) still in
      elim (Bool-cases ((d.execute q.query s).1 || q.caught)) [
        | inl on ↦ rw (on, run_all) rest
        | inr stopped ↦ rw (stopped, run_all) still
      ]

  -- How the transaction stands after the statements of a block.
  abbrev Stands : List (Statement Q) → C × D → C × D → Type 0
  Stands qs s t =
      ((law.doomed t.0 ≡ false) × (view t ≡ effects effect (returned_of d qs s) (view s)))
      ⊎ ((law.doomed t.0 ≡ true) × (all_return d qs s ≡ false))

  run_all-view :
      (qs : List (Statement Q)) (last : Exit) (s : C × D)
      → d.autocommit s.0 ≡ false
      → law.doomed s.0 ≡ false
      → (run_all d qs last s).1 ≡ done
      → Stands qs s (run_all d qs last s).0
  unfolding run_all returned_of all_return
  run_all-view [] last s off sound h = inl (sound, refl)
  run_all-view (q ∷ qs) last s off sound h =
      let mode = law.execute_mode q.query s in
      let next = (d.execute q.query s).0 in
      elim (Bool-cases (d.execute q.query s).1) [
        | inl ok ↦
            let (seen, going) = law.execute_view q.query s off sound ok in
            rw (ok, run_all)
              (elim (run_all-view qs last next (mode ∙ off) going (rw (ok, run_all) at h)) [
                | inl (fine, all) ↦
                    inl (fine, all ∙ ap (effects effect (returned_of d qs next)) seen)
                | inr lost ↦ inr lost
              ])
        | inr err ↦ elim (Bool-cases q.caught) [
          | inr passed ↦ absurd (ground (arith, rw (err, passed, run_all) at h))
          | inl caught ↦
              rw (err, caught, run_all)
                (elim (law.execute_raised q.query s off sound err) [
                  | inl lost ↦ inr (run_all-doomed qs last next (mode ∙ off) lost, refl)
                  | inr (same, going) ↦
                      elim (run_all-view qs last next (mode ∙ off) going
                        (rw (err, caught, run_all) at h)) [
                          | inl (fine, all) ↦
                              inl (fine, all ∙ ap (effects effect (returned_of d qs next)) same)
                          | inr (lost, some_raised) ↦ inr (lost, refl)
                        ]
                ])
        ]
      ]

  restored-keeps : (s : C × D) (e : Exit) → (restored d s e).0.1 ≡ s.1
  restored-keeps s e = law.set_keeps true s

  restored_done :
      (s : C × D) (e : Exit)
      → (restored d s e).1 ≡ done
      → (e ≡ done) × (d.autocommit (restored d s e).0.0 ≡ true)
  restored_done s e h = elim (Bool-cases (d.set_autocommit true s).1) [
    | inl ok ↦ (rw ok at h, law.set_mode true s ok)
    | inr err ↦ absurd (ground (arith, rw err at h))
  ]

  store_ended-keeps : (r : (C × D) × Exit) → r.1 ≢ done → (store_ended d r).0.1 ≡ r.0.1
  store_ended-keeps (s, done) n = absurd (n refl)
  store_ended-keeps (s, failed) n = restored-keeps (d.rollback s).0 failed ∙ law.rollback_keeps s
  store_ended-keeps (s, aborted) n = restored-keeps s aborted

  -- A store's transaction that returns has committed.
  store_ended_done :
      (r : (C × D) × Exit)
      → (store_ended d r).1 ≡ done
      → (r.1 ≡ done)
        × ((law.doomed r.0.0 ≡ false) → (store_ended d r).0.1 ≡ view r.0)
        × ((law.doomed r.0.0 ≡ true) → (store_ended d r).0.1 ≡ r.0.1)
        × (d.autocommit (store_ended d r).0.0 ≡ true)
  store_ended_done (s, done) h = elim (Bool-cases (d.commit s).1) [
    | inl ok ↦
        let (_, on) = restored_done (d.commit s).0 done (rw ok at h) in
        let keeps = restored-keeps (d.commit s).0 done in
        (
          refl,
          λ sound. rw ok (keeps ∙ law.commit_view s sound ok),
          λ lost. rw ok (keeps ∙ law.commit_doomed s lost),
          rw ok on,
        )
    | inr err ↦
        absurd
          (ground (arith, (restored_done (d.rollback (d.commit s).0).0 failed (rw err at h)).0))
  ]
  store_ended_done (s, failed) h =
      absurd (ground (arith, (restored_done (d.rollback s).0 failed h).0))
  store_ended_done (s, aborted) h = absurd (ground (arith, (restored_done s aborted h).0))

  -- What a block whose transaction returns has left in the database `after`, from `before` on.
  abbrev pub IsCommitted : List (Statement Q) → C × D → D → D → Type 0
  IsCommitted qs start before after =
      (all_return d qs start ≡ true → after ≡ effects effect (map (λ q. q.query) qs) before)
      × ((after ≡ effects effect (returned_of d qs start) before)
          ⊎ ((all_return d qs start ≡ false) × (after ≡ before)))

  Stands-IsCommitted :
      (qs : List (Statement Q)) (s t : C × D) (before after : D)
      → view s ≡ before
      → t.1 ≡ before
      → Stands qs s t
      → ((law.doomed t.0 ≡ false) → after ≡ view t)
      → ((law.doomed t.0 ≡ true) → after ≡ t.1)
      → IsCommitted qs s before after
  Stands-IsCommitted qs s t before after seen kept (inl (sound, all)) fine lost =
      let ended : after ≡ effects effect (returned_of d qs s) before =
        fine sound ∙ all ∙ ap (effects effect (returned_of d qs s)) seen in
      (λ h. ended ∙ ap (λ l. effects effect l before) (returned_of_all d qs s h), inl ended)
  Stands-IsCommitted qs s t before after seen kept (inr (doomed, raised)) fine lost =
      ((λ h. absurd (ground (arith, h, raised))), inr (raised, lost doomed ∙ kept))

  -- Under what PostgreSQL and its driver document: if a transaction of the store returns, each later statement
  -- of the connection commits itself; if all statements of its block returned, their effects, in order,
  -- are in the database; if the block caught what some raised, either the effects of all those that
  -- returned are there, or none, since the transaction had failed. If the block does not get to its end,
  -- whether a statement raises what it does not catch, the block itself raises, or it is interrupted, the
  -- database is as it was before.
  pub transaction_lem :
      (b : Block Q) (s : C × D)
      → ((transaction d b s).1 ≡ done
          → IsCommitted b.statements (d.set_autocommit false s).0 s.1 (transaction d b s).0.1
            × (d.autocommit (transaction d b s).0.0 ≡ true))
        × ((run_block d b (d.set_autocommit false s).0).1 ≢ done → (transaction d b s).0.1 ≡ s.1)
  unfolding transaction run_block
  transaction_lem b s = elim (Bool-cases (d.set_autocommit false s).1) [
    | inr err ↦
        rw (err, transaction) ((λ h. absurd (ground (arith, h))), λ n. law.set_keeps false s)
    | inl ok ↦
        let off = law.set_mode false s ok in
        let opened = (d.set_autocommit false s).0 in
        let ran = run_all d b.statements (exit b.ending) opened in
        let kept = run_all-keeps b.statements (exit b.ending) opened off in
        rw (ok, transaction)
          (
            λ h.
                let (finished, fine, lost, on) = store_ended_done ran h in
                let stands =
                  run_all-view b.statements (exit b.ending) opened off (law.set_sound s ok)
                    finished in
                (
                  Stands-IsCommitted b.statements opened ran.0 s.1 _ (law.set_view s ok)
                      (kept.0 ∙ law.set_keeps false s) stands fine lost,
                  on,
                ),
            λ n. store_ended-keeps ran n ∙ kept.0 ∙ law.set_keeps false s,
          )
  ]
