-- ===== src/Caching/PersistenceQueue/Accounts.antt =====
-- Where every job that was submitted is, after any interleaving of submitters and workers.
use salesinfo_api_v.Base.{
  ℕ, zero, suc, ◌+◌, ◌≤◌, ◌<◌, ◌≡◌, refl, true, false, arith, List, [], ◌∷◌, ◌++◌, length,
  length-append, if◌then◌else◌, ap, sym, ◌⊎◌, ◌↔◌,
}
use salesinfo_api_v.Caching.PersistenceQueue.{
  PersistenceQueue, init, start, is_full, submit, take_job, Ending, returns, raises, cancelled,
  finish, remove_at, close, retire,
}

abbrev pub lost_by : Ending → ℕ
lost_by returns = 0
lost_by raises = 0
lost_by cancelled = 1

-- A step, the number of jobs submitted in it and the number cancelled in it, in any order.
pub data Step (q : PersistenceQueue) : PersistenceQueue → ℕ → ℕ → Type 0 where
  starts : Step q (start q) 0 0
  submits : (now n : ℕ) → n ≡ 1 → Step q (submit q now).0 n 0
  takes : Step q (take_job q) 0 0
  finishes :
      (i now : ℕ) (e : Ending) (lost : ℕ)
      → i < length q.running
      → lost ≡ lost_by e
      → Step q (finish q i e now) 0 lost
  closes : Step q (close q) 0 0
  retires : Step q (retire q) 0 0

pub data Reach (q : PersistenceQueue) : PersistenceQueue → ℕ → ℕ → Type 0 where
  here : Reach q q 0 0
  next :
      {r s : PersistenceQueue} {submitted lost n m k l : ℕ}
      → Reach q r submitted lost
      → Step r s n m
      → k ≡ submitted + n
      → l ≡ lost + m
      → Reach q s k l

-- Every job submitted was enqueued or dropped; every job enqueued is queued, running, completed,
-- failed or cancelled; the queue is within its bound, or has none.
pub record IsBalanced (submitted lost : ℕ) (q : PersistenceQueue) : Type 0 where
  pub entered : q.enqueued + q.dropped ≡ submitted
  pub placed : length q.queue + length q.running + q.completed + q.failed + lost ≡ q.enqueued
  pub bounded : (q.maxsize ≡ 0) ⊎ (length q.queue ≤ q.maxsize)

length-remove_at : (xs : List ℕ) (i : ℕ) → i < length xs → length (remove_at xs i) + 1 ≡ length xs
length-remove_at [] i h = absurd (omega arith)
length-remove_at (x ∷ xs) zero h = omega arith
length-remove_at (x ∷ xs) (suc i) h = omega (arith, length-remove_at xs i (omega arith))

submit-IsBalanced :
    (a b : ℕ) (q : PersistenceQueue) (now : ℕ)
    → IsBalanced a b q
    → IsBalanced (a + 1) b (submit q now).0
unfolding submit
submit-IsBalanced a b q now v = ground (arith, length-append q.queue (now ∷ []), v.bounded)

take_job-IsBalanced :
    (a b : ℕ) (q : PersistenceQueue) (jobs : List ℕ)
    → q.queue ≡ jobs
    → IsBalanced a b q
    → IsBalanced a b (take_job q)
unfolding take_job
take_job-IsBalanced a b q [] e v = rw (e, take_job) v
take_job-IsBalanced a b q (j ∷ js) e v =
    rw (e, take_job)
      (record {
        entered = v.entered;
        placed = omega (arith, v.placed, length-append q.running (j ∷ []), ap length e);
        bounded = grind (arith, v.bounded, ap length e);
      })

finish-IsBalanced :
    (a b : ℕ) (q : PersistenceQueue) (i now : ℕ) (e : Ending)
    → i < length q.running
    → IsBalanced a b q
    → IsBalanced a (b + lost_by e) (finish q i e now)
unfolding finish
finish-IsBalanced a b q i now returns h v =
    ground (arith, length-remove_at q.running i h, v.bounded)
finish-IsBalanced a b q i now raises h v = ground (arith, length-remove_at q.running i h, v.bounded)
finish-IsBalanced a b q i now cancelled h v =
    ground (arith, length-remove_at q.running i h, v.bounded)

renumber :
    {q : PersistenceQueue} (a b c d : ℕ) → a ≡ c → b ≡ d → IsBalanced a b q → IsBalanced c d q
renumber a b c d p r v = omega arith

Step-IsBalanced :
    (a b : ℕ) {q r : PersistenceQueue} {n m : ℕ}
    → Step q r n m
    → IsBalanced a b q
    → IsBalanced (a + n) (b + m) r
unfolding start close retire
Step-IsBalanced a b {q} starts v = ground (arith, v.bounded)
Step-IsBalanced a b {q} (submits now n one) v =
    renumber (a + 1) b _ _ (omega arith) (omega arith) (submit-IsBalanced a b q now v)
Step-IsBalanced a b {q} takes v =
    renumber a b _ _ (omega arith) (omega arith) (take_job-IsBalanced a b q q.queue refl v)
Step-IsBalanced a b {q} (finishes i now e lost h l) v =
    renumber a (b + lost_by e) _ _ (omega arith) (omega arith) (finish-IsBalanced a b q i now e h v)
Step-IsBalanced a b closes v = omega arith
Step-IsBalanced a b retires v = omega arith

Reach-IsBalanced :
    {q r : PersistenceQueue} {n m : ℕ} → IsBalanced 0 0 q → Reach q r n m → IsBalanced n m r
Reach-IsBalanced v here = v
Reach-IsBalanced v (next {submitted = a} {lost = b} h st e f) =
    renumber _ _ _ _ (sym e) (sym f) (Step-IsBalanced a b st (Reach-IsBalanced v h))

-- After any interleaving of submissions and workers on a new queue, starts and stops included:
-- every job submitted was enqueued or dropped, every job enqueued is queued, running, completed,
-- failed or cancelled by a stop, and a bounded queue is never longer than its bound.
pub Reach-init-IsBalanced :
    (maxsize workers submitted lost : ℕ) (q : PersistenceQueue)
    → Reach (init maxsize workers) q submitted lost
    → IsBalanced submitted lost q
unfolding init
Reach-init-IsBalanced maxsize workers submitted lost q r = Reach-IsBalanced (omega arith) r

-- A submission takes the job exactly if the queue accepts work and has room; it counts it as
-- enqueued or as dropped by what it answers, and it never touches a job that is already there.
submit_answer :
    (q : PersistenceQueue) (now : ℕ)
    → (((submit q now).1 ≡ true) ↔ ((q.accepting ≡ true) × (is_full q ≡ false)))
      × ((submit q now).0.queue ≡ (if (submit q now).1 then q.queue ++ now ∷ [] else q.queue))
      × ((submit q now).0.enqueued ≡ (if (submit q now).1 then q.enqueued + 1 else q.enqueued))
      × ((submit q now).0.dropped ≡ (if (submit q now).1 then q.dropped else q.dropped + 1))
unfolding submit
submit_answer q now = ground arith
