-- ===== src/JobQueue/Worker.antt =====
-- One worker of the pool (worker.go) and the registry of handlers (registry.go). A handler is a
-- function of the job; that it panics is one of its results, which `handle` recovers from. The
-- texts of errors are built by `fmt`, so the quoting `%q` of a kind is a parameter.
use cooker.Prelude.{
  ℕ, zero, suc, ◌+◌, String, Bool, true, false, Option, none, some, List, if◌then◌else◌, ◌=ₛ◌, map,
}
use cooker.Prelude.Dict.{lookup, insert}
use Prim.Native.String.{◌++◌}
use cooker.JobQueue.{Job, Jobs, dequeue, complete, reschedule}

pub data HandlerResult : Type 0 where
  success : HandlerResult
  handler_error : String → HandlerResult
  handler_panic : String → HandlerResult

abbrev pub Registry : Type 0
Registry = List (String × (Job → HandlerResult))

pub data RegisterResult : Type 0 where
  registered : Registry → RegisterResult
  empty_kind_panic : RegisterResult
  nil_handler_panic : RegisterResult
  duplicate_panic : RegisterResult

abbrev register_new :
    Option (Job → HandlerResult) → String → (Job → HandlerResult) → Registry → RegisterResult
register_new none kind h r = registered (insert kind h r)
register_new (some old) kind h r = duplicate_panic

-- A nil `HandlerFunc` is `none`.
unfoldable pub register : String → Option (Job → HandlerResult) → Registry → RegisterResult
register kind none r = if kind =ₛ "" then empty_kind_panic else nil_handler_panic
register kind (some h) r =
    if kind =ₛ "" then empty_kind_panic else register_new (lookup kind r) kind h r

unfoldable pub kinds : Registry → List String
kinds r = map (λ p. p.0) r

module _ (quote : String → String) where
  abbrev run_handler : Option (Job → HandlerResult) → Job → HandlerResult
  run_handler none j = handler_error ("jobqueue: no handler registered for kind " ++ quote j.kind)
  run_handler (some h) j = h j

  unfoldable pub dispatch : Registry → Job → HandlerResult
  dispatch r j = run_handler (lookup j.kind r) j

  -- `handlerErr` after the recovering closure.
  abbrev pub handler_err : HandlerResult → Option String
  handler_err success = none
  handler_err (handler_error e) = some e
  handler_err (handler_panic p) = some ("handler panic: " ++ p)

  -- `handle`: the outcome is reported to the store, whose own error is only logged. `now` is
  -- the clock reading of the store's call, `later` that of `time.Now()` for the next run.
  abbrev pub settle : ℕ → ℕ → (ℕ → ℕ) → String → Job → Option String → Jobs → Jobs
  settle now later backoff worker j none jobs = (complete now worker j.id jobs).0
  settle now later backoff worker j (some e) jobs =
      (reschedule now worker j.id (later + backoff j.attempts) e jobs).0

  unfoldable pub handle : ℕ → ℕ → (ℕ → ℕ) → Registry → String → Job → Jobs → Jobs
  unfolding dispatch
  handle now later backoff r worker j jobs =
      settle now later backoff worker j (handler_err (dispatch r j)) jobs

  abbrev pub handle_claimed : ℕ → ℕ → (ℕ → ℕ) → Registry → String → Jobs × Option Job → Jobs × Bool
  handle_claimed now later backoff r worker (jobs, none) = (jobs, false)
  handle_claimed now later backoff r worker (jobs, some j) =
      (handle now later backoff r worker j jobs, true)

  -- One round of the loop of `run`, with what the other workers do left out: `false` where the
  -- worker found nothing to do and goes to sleep.
  unfoldable pub work : ℕ → ℕ → ℕ → (ℕ → ℕ) → Registry → String → Jobs → Jobs × Bool
  unfolding kinds
  work start now later backoff r worker jobs =
      handle_claimed now later backoff r worker (dequeue start worker (kinds r) jobs)

  -- The loop of `run`, up to the round in which the worker finds no work: the reading of the clock
  -- with which that round asked for a job, and the store that the worker then sleeps on. The three
  -- clock readings of the n-th round come from `clock`; `none` means that the rounds allowed did
  -- not suffice.
  unfoldable pub drain :
      ℕ → (ℕ → ℕ × ℕ × ℕ) → (ℕ → ℕ) → Registry → String → Jobs → Option (ℕ × Jobs)
  unfolding work
  drain zero clock backoff r worker jobs = none
  drain (suc n) clock backoff r worker jobs =
      let (start, now, later) = clock n in
      let (after, busy) = work start now later backoff r worker jobs in
      let rest = drain n clock backoff r worker after in if busy then rest else some (start, after)
