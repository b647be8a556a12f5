-- ===== src/Tail/Fifo.antt =====
-- The queue of orchestrator/tail.py: `infer` and the worker `_run`. What the interpreter computes is
-- given to the worker.
use split_inference.Base.{
  ℕ, suc, String, ◌≡◌, refl, sym, ap, ◌∙◌, Option, none, some, List, [], ◌∷◌, ◌++◌, map, append-nil,
  append_assoc, arith, nat_eq, string_eq, pair_eq, range_from, range, range_from-append,
}
use split_inference.Wire.Struct.{Bytes}
use split_inference.Scheduler.World.{TailResult}
use mathlib.Core.List.{map-append}
use mathlib.Core.Path.{ap₂}

-- (arm, blob, time.monotonic(), fut)
pub record Job : Type 0 where
  pub arm : String
  pub blob : Bytes
  pub t_queue_in : ℕ
  pub fut : ℕ

-- What ends a job: `set_result` or `set_exception`.
pub data Answer : Type 0 where
  answered : TailResult → Answer
  raised : Answer

-- `running` is the job of the worker, with the time at which it left the queue.
pub record Tail : Type 0 where
  pub queue : List Job
  pub running : Option (Job × ℕ)
  pub answers : List (ℕ × Answer)
  pub next_fut : ℕ

abbrev pub empty : Tail
empty = record { queue = []; running = none; answers = []; next_fut = 0 }

unfoldable pub infer : String → Bytes → ℕ → Tail → Tail
infer arm blob now t = record t {
  queue = t.queue ++ record { arm = arm; blob = blob; t_queue_in = now; fut = t.next_fut } ∷ [];
  next_fut = suc t.next_fut;
}

-- await self.queue.get()
unfoldable pub take_job : ℕ → Tail → Tail
take_job now t = elim t.running [
  | some job ↦ t
  | none ↦ elim t.queue [
    | [] ↦ t
    | job ∷ jobs ↦ record t { queue = jobs; running = some (job, now) }
  ]
]

-- The prediction and its duration, or an exception of the interpreter.
abbrev pub answer : Job → ℕ → ℕ → Option (ℕ × ℕ) → Answer
answer job t_queue_out now none = raised
answer job t_queue_out now (some (pred, t_tail_us)) = answered (record {
  pred_class = pred;
  t_queue_in = job.t_queue_in;
  t_queue_out = t_queue_out;
  t_tail_us = t_tail_us;
  t_done = now;
})

unfoldable pub end_job : ℕ → Option (ℕ × ℕ) → Tail → Tail
end_job now outcome t = elim t.running [
  | none ↦ t
  | some (job, t_queue_out) ↦ record t {
    running = none;
    answers = t.answers ++ (job.fut, answer job t_queue_out now outcome) ∷ [];
  }
]

pub data Step (t : Tail) : Tail → Type 0 where
  asked : (arm : String) (blob : Bytes) (now : ℕ) → Step t (infer arm blob now t)
  taken : (now : ℕ) → Step t (take_job now t)
  ended : (now : ℕ) (outcome : Option (ℕ × ℕ)) → Step t (end_job now outcome t)

pub data Reach : Tail → Type 0 where
  started : Reach empty
  next : {t t' : Tail} → Reach t → Step t t' → Reach t'

abbrev pub in_work : Option (Job × ℕ) → List ℕ
in_work none = []
in_work (some (job, now)) = job.fut ∷ []

-- The futures in the order in which they are or will be settled.
abbrev pub line : Tail → List ℕ
line t = map (λ a. a.0) t.answers ++ in_work t.running ++ map (λ j. j.fut) t.queue

range-suc : (n : ℕ) → range n ++ n ∷ [] ≡ range (suc n)
range-suc n =
    ap (λ k. range n ++ k ∷ []) (omega arith)
    ∙ sym (range_from-append 0 n 1)
    ∙ ap (λ k. range_from 0 k) {y = suc n} (omega arith)

abbrev answer_ids : Tail → List ℕ
answer_ids t = map (λ a. a.0) t.answers

infer-line :
    (arm : String) (blob : Bytes) (now : ℕ) (t : Tail)
    → line t ≡ range t.next_fut
    → line (infer arm blob now t) ≡ range (suc t.next_fut)
unfolding infer
infer-line arm blob now t h =
    ap (λ xs. answer_ids t ++ in_work t.running ++ xs)
      (map-append (λ j. j.fut) t.queue
        (record { arm = arm; blob = blob; t_queue_in = now; fut = t.next_fut } ∷ []))
    ∙ sym (
        append_assoc (answer_ids t ++ in_work t.running) (map (λ j. j.fut) t.queue)
          (t.next_fut ∷ []))
    ∙ ap (λ xs. xs ++ t.next_fut ∷ []) h
    ∙ range-suc t.next_fut

take_job-line :
    (now : ℕ) (t : Tail)
    → line t ≡ range t.next_fut
    → line (take_job now t) ≡ range (take_job now t).next_fut
unfolding take_job
take_job-line now t h = split t.running t.queue refl refl
  where
    split :
        (r : Option (Job × ℕ)) (q : List Job)
        → t.running ≡ r
        → t.queue ≡ q
        → (let u : Tail = elim r [
          | some job ↦ t
          | none ↦ elim q [
            | [] ↦ t
            | job ∷ jobs ↦ record t { queue = jobs; running = some (job, now) }
          ]
        ] in
            line u ≡ range u.next_fut)
    split (some job) q e f = h
    split none [] e f = h
    split none (job ∷ jobs) e f =
        append_assoc (answer_ids t) (job.fut ∷ []) (map (λ j. j.fut) jobs)
        ∙ ap (λ xs. xs ++ map (λ j. j.fut) (job ∷ jobs)) (sym (append-nil (answer_ids t)))
        ∙ sym (ap₂ (λ r q. answer_ids t ++ in_work r ++ map (λ j. j.fut) q) e f)
        ∙ h

end_job-line :
    (now : ℕ) (outcome : Option (ℕ × ℕ)) (t : Tail)
    → line t ≡ range t.next_fut
    → line (end_job now outcome t) ≡ range (end_job now outcome t).next_fut
unfolding end_job
end_job-line now outcome t h = split t.running refl
  where
    split :
        (r : Option (Job × ℕ))
        → t.running ≡ r
        → (let u : Tail = elim r [
          | none ↦ t
          | some (job, t_queue_out) ↦ record t {
            running = none;
            answers = t.answers ++ (job.fut, answer job t_queue_out now outcome) ∷ [];
          }
        ] in
            line u ≡ range u.next_fut)
    split none e = h
    split (some (job, t_queue_out)) e =
        ap (λ xs. xs ++ map (λ j. j.fut) t.queue)
          (append-nil
            (map (λ a. a.0) (t.answers ++ (job.fut, answer job t_queue_out now outcome) ∷ [])))
        ∙ ap (λ xs. xs ++ map (λ j. j.fut) t.queue)
            (map-append (λ a. a.0) t.answers ((job.fut, answer job t_queue_out now outcome) ∷ []))
        ∙ sym (ap (λ r. answer_ids t ++ in_work r ++ map (λ j. j.fut) t.queue) e)
        ∙ h

step-line : (t t' : Tail) → Step t t' → line t ≡ range t.next_fut → line t' ≡ range t'.next_fut
unfolding infer
step-line t t' (asked arm blob now) h = infer-line arm blob now t h
step-line t t' (taken now) h = take_job-line now t h
step-line t t' (ended now outcome) h = end_job-line now outcome t h

-- Requests of the tail are answered in the order in which they were made, each once: the futures
-- settled, that of the running job and those in the queue are at any time, in this order, all that
-- were made.
pub Reach-line : (t : Tail) → Reach t → line t ≡ range t.next_fut
Reach-line t started = refl
Reach-line t (next {t = u} r s) = step-line u t s (Reach-line u r)
