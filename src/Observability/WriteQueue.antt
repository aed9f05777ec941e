-- ===== src/Observability/WriteQueue.antt =====
-- `ObservabilityWriteQueue` of core/observability/write_queue.py: records are queued, and a
-- background thread hands them over in batches, each to one transaction of `_flush_batch`. What
-- becomes of a batch in the database is not modelled. Any thread may enqueue at any time.
use salesinfo_api_v.Base.{
  ◌⊎◌, ℕ, ◌≡◌, refl, sym, ap, ◌∙◌, Bool, true, false, List, [], ◌∷◌, ◌++◌, Option, none, some, take,
  drop, take-append-drop, append_assoc, append-nil, inl, inr,
}

-- The queue, the batches handed to `_flush_batch` so far, and the limit of a batch.
pub record WriteQueue {ℓ} (R : Type ℓ) : Type ℓ where
  pub queue : List R
  pub flushed : List (List R)
  pub max_batch : ℕ
  pub is_stopped : Bool

pub data Action {ℓ} (R : Type ℓ) : Type ℓ where
  enqueues : R → Action R
  ticks : Action R

module _ {ℓ} {R : Type ℓ} where
  -- `_drain`: up to `max_batch` records from the front, or all of them.
  unfoldable pub drain : Option ℕ → List R → List R × List R
  drain none queue = (queue, [])
  drain (some limit) queue = (take limit queue, drop limit queue)

  unfoldable pub init : ℕ → WriteQueue R
  init max_batch = record { queue = []; flushed = []; max_batch = max_batch; is_stopped = false }

  unfoldable pub enqueue : WriteQueue R → R → WriteQueue R
  enqueue q r = record q { queue = q.queue ++ r ∷ [] }

  -- An empty batch is not flushed.
  abbrev pub flush : WriteQueue R → List R × List R → WriteQueue R
  flush q ([], rest) = record q { queue = rest }
  flush q (r ∷ rs, rest) = record q { queue = rest; flushed = q.flushed ++ (r ∷ rs) ∷ [] }

  -- One round of the loop of `_run`.
  unfoldable pub tick : WriteQueue R → WriteQueue R
  tick q = flush q (drain (some q.max_batch) q.queue)

  -- `stop`, once the thread has ended.
  unfoldable pub stop : WriteQueue R → WriteQueue R
  stop q = record (flush q (drain none q.queue)) { is_stopped = true }

  abbrev pub concat : List (List R) → List R
  concat [] = []
  concat (b ∷ bs) = b ++ concat bs

  concat-append : (bs cs : List (List R)) → concat (bs ++ cs) ≡ concat bs ++ concat cs
  concat-append [] cs = refl
  concat-append (b ∷ bs) cs =
      ap (◌++◌ b) (concat-append bs cs) ∙ sym (append_assoc b (concat bs) (concat cs))

  -- The records handed over, in order, and then those still queued.
  abbrev pub contents : WriteQueue R → List R
  contents q = concat q.flushed ++ q.queue

  flush-contents :
      (q : WriteQueue R) (batch rest : List R)
      → q.queue ≡ batch ++ rest
      → contents (flush q (batch, rest)) ≡ contents q
  flush-contents q [] rest e = ap (◌++◌ (concat q.flushed)) (sym e)
  flush-contents q (r ∷ rs) rest e =
      rw (concat-append q.flushed ((r ∷ rs) ∷ []), append-nil (r ∷ rs), append_assoc)
        (ap (◌++◌ (concat q.flushed)) (sym e))

  tick-contents : (q : WriteQueue R) → contents (tick q) ≡ contents q
  unfolding tick drain
  tick-contents q = flush-contents q _ _ (sym (take-append-drop q.max_batch q.queue))

  stop-contents : (q : WriteQueue R) → contents (stop q) ≡ contents q
  unfolding stop drain
  stop-contents q = flush-contents q q.queue [] (sym (append-nil q.queue))

  -- `enqueue` by any thread and rounds of the loop, in any order.
  unfoldable pub run : WriteQueue R → List (Action R) → WriteQueue R
  run q [] = q
  run q (enqueues r ∷ acts) = run (enqueue q r) acts
  run q (ticks ∷ acts) = run (tick q) acts

  abbrev pub records : List (Action R) → List R
  records [] = []
  records (enqueues r ∷ acts) = r ∷ records acts
  records (ticks ∷ acts) = records acts

  run-contents :
      (q : WriteQueue R) (acts : List (Action R))
      → contents (run q acts) ≡ contents q ++ records acts
  unfolding run enqueue
  run-contents q [] = sym (append-nil (contents q))
  run-contents q (enqueues r ∷ acts) = run-contents (enqueue q r) acts ∙ simp append_assoc
  run-contents q (ticks ∷ acts) =
      run-contents (tick q) acts ∙ ap (λ c. c ++ records acts) (tick-contents q)

  List-cases : (xs : List R) → (xs ≡ []) ⊎ ((x : R) × (ys : List R) × (xs ≡ x ∷ ys))
  List-cases [] = inl refl
  List-cases (x ∷ xs) = inr (x, xs, refl)

  stopped_empty : (q : WriteQueue R) → (stop q).queue ≡ []
  unfolding stop drain
  stopped_empty q = elim (List-cases q.queue) [
    | inl e ↦ rw (e, flush) refl
    | inr (r, rs, e) ↦ rw (e, flush) refl
  ]

  -- After any interleaving of producers and flushes, followed by a stop, every record that was
  -- enqueued has been handed to a flush exactly once, in the order in which they were enqueued, and
  -- none is left in the queue.
  pub run-stop :
      (max_batch : ℕ) (acts : List (Action R))
      → (concat (stop (run (init max_batch) acts)).flushed ≡ records acts)
        × ((stop (run (init max_batch) acts)).queue ≡ [])
  unfolding init
  run-stop max_batch acts =
      let q = run (init max_batch) acts in
      let empty = stopped_empty q in
      (
        sym (append-nil (concat (stop q).flushed))
            ∙ ap (◌++◌ (concat (stop q).flushed)) (sym empty)
            ∙ stop-contents q
            ∙ run-contents (init max_batch) acts,
        empty,
      )
