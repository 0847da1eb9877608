-- ===== src/Client/Polling.antt =====
-- AwaitWorkRequest: wait.PollUntil tries the condition at each tick, until it says that it is done
-- or fails, or the context is done. The ticks before that are a list: whether the rate limiter
-- accepts the request, and what the service answers.
use mathlib.Core.Path.{subst}
use oci_lb_ingress_controlle.Client.Sdk.{
  LifecycleState, accepted, in_progress, succeeded, failed, WorkRequest, rate_limit_error, limited,
  get_work_request_request,
}
use oci_lb_ingress_controlle.Controller.Errors.{cause, is_retryable_error}
use oci_lb_ingress_controlle.Base.{
  Str, Option, none, some, if◌then◌else◌, Bool-cases, text, Error, message, with_stack, Result, ok,
  err, ◌≡◌, ◌↔◌, ◌⊎◌, refl, sym, ap, ◌∙◌, inl, inr, Bool, true, false, List, [], ◌∷◌, arith,
}

pub data Poll : Type 0 where
  done : WorkRequest → Poll
  again : Poll
  stopped : Error → Poll

-- The message of a request that failed is dereferenced.
abbrev failed_with : Option Str → Error
failed_with none = message (text "panic: invalid memory address or nil pointer dereference")
failed_with (some m) = message (text "WorkRequest failed")

abbrev of_state : LifecycleState → WorkRequest → Poll
of_state succeeded wr = done wr
of_state failed wr = stopped (failed_with wr.error_message)
of_state accepted wr = again
of_state in_progress wr = again

-- The condition
unfoldable pub poll_condition : Result WorkRequest → Poll
poll_condition (err e) = if is_retryable_error e then again else stopped (with_stack e)
poll_condition (ok wr) = of_state wr.lifecycle_state wr

abbrev pub Tick : Type 0
Tick = Bool × Result WorkRequest

-- GetWorkRequest at a tick
abbrev pub work_request_at : Tick → Result WorkRequest
work_request_at (accepts, answer) = (limited accepts [] (get_work_request_request []) answer).1

unfoldable pub await_work_request : List Tick → Result WorkRequest
await_work_request [] = err (message (text "timed out waiting for the condition"))
await_work_request (t ∷ ticks) =
    let rest = await_work_request ticks in
    elim (poll_condition (work_request_at t)) [ done wr ↦ ok wr | again ↦ rest | stopped e ↦ err e ]

-- The request is not finished, or the service asks to be tried again.
abbrev pub IsWaiting : Tick → Type 0
IsWaiting (true, ok wr) = (wr.lifecycle_state ≡ accepted) ⊎ (wr.lifecycle_state ≡ in_progress)
IsWaiting (true, err e) = is_retryable_error e ≡ true
IsWaiting (false, answer) = ⊥

-- The first tick that is no waiting one finds the request to have succeeded.
abbrev pub SucceedsWith : WorkRequest → List Tick → Type 0
SucceedsWith wr [] = ⊥
SucceedsWith wr (t ∷ ticks) =
    ((t ≡ (true, ok wr)) × (wr.lifecycle_state ≡ succeeded)) ⊎ (IsWaiting t × SucceedsWith wr ticks)

waiting_again : (t : Tick) → IsWaiting t → poll_condition (work_request_at t) ≡ again
unfolding poll_condition is_retryable_error cause
waiting_again (true, ok wr) (inl e) = ap (λ s. of_state s wr) e
waiting_again (true, ok wr) (inr e) = ap (λ s. of_state s wr) e
waiting_again (true, err e) h = rw h refl
waiting_again (false, answer) h = absurd h

step_again :
    (t : Tick) (ticks : List Tick)
    → poll_condition (work_request_at t) ≡ again
    → await_work_request (t ∷ ticks) ≡ await_work_request ticks
unfolding await_work_request
step_again t ticks e = rw (e, await_work_request) refl

done_when_succeeded :
    (wr : WorkRequest)
    → wr.lifecycle_state ≡ succeeded
    → poll_condition (work_request_at (true, ok wr)) ≡ done wr
unfolding poll_condition
done_when_succeeded wr e = ap (λ s. of_state s wr) e

step_done :
    (ticks : List Tick) (wr : WorkRequest)
    → wr.lifecycle_state ≡ succeeded
    → await_work_request ((true, ok wr) ∷ ticks) ≡ ok wr
unfolding await_work_request
step_done ticks wr e = rw (done_when_succeeded wr e, await_work_request) refl

succeeding :
    (wr : WorkRequest) (ticks : List Tick)
    → SucceedsWith wr ticks
    → await_work_request ticks ≡ ok wr
succeeding wr [] h = absurd h
succeeding wr (t ∷ ticks) (inl (e, s)) = rw e (step_done ticks wr s)
succeeding wr (t ∷ ticks) (inr (w, h)) =
    step_again t ticks (waiting_again t w) ∙ succeeding wr ticks h

-- What the condition says of a tick
Judged : Tick → Type 0
Judged t =
    (IsWaiting t × (poll_condition (work_request_at t) ≡ again))
    ⊎ (((wr : WorkRequest) × (t ≡ (true, ok wr)) × (wr.lifecycle_state ≡ succeeded))
        ⊎ ((e : Error) × (poll_condition (work_request_at t) ≡ stopped e)))

LifecycleState-cases :
    (s : LifecycleState) → ((s ≡ accepted) ⊎ (s ≡ in_progress)) ⊎ ((s ≡ succeeded) ⊎ (s ≡ failed))
LifecycleState-cases accepted = inl (inl refl)
LifecycleState-cases in_progress = inl (inr refl)
LifecycleState-cases succeeded = inr (inl refl)
LifecycleState-cases failed = inr (inr refl)

judged : (t : Tick) → Judged t
unfolding Judged poll_condition is_retryable_error cause rate_limit_error
judged (false, answer) = inr (inr (with_stack rate_limit_error, refl))
judged (true, err e) = elim (Bool-cases (is_retryable_error e)) [
  | inl h ↦ inl (h, rw h refl)
  | inr h ↦ inr (inr (with_stack (with_stack e), rw h refl))
]
judged (true, ok wr) = elim (LifecycleState-cases wr.lifecycle_state) [
  | inl h ↦ inl (h, waiting_again (true, ok wr) h)
  | inr (inl h) ↦ inr (inl (wr, refl, h))
  | inr (inr h) ↦ inr (inr (failed_with wr.error_message, ap (λ s. of_state s wr) h))
]

step_stopped :
    (t : Tick) (ticks : List Tick) (e : Error)
    → poll_condition (work_request_at t) ≡ stopped e
    → await_work_request (t ∷ ticks) ≡ err e
unfolding await_work_request
step_stopped t ticks e h = rw (h, await_work_request) refl

request_of : WorkRequest → Result WorkRequest → WorkRequest
request_of other (ok wr) = wr
request_of other (err e) = other

ok_inj : (x y : WorkRequest) → ◌≡◌ {A = Result WorkRequest} (ok x) (ok y) → x ≡ y
unfolding request_of
ok_inj x y e = ap (request_of x) e

only_succeeding :
    (wr : WorkRequest) (ticks : List Tick)
    → await_work_request ticks ≡ ok wr
    → SucceedsWith wr ticks
unfolding await_work_request Judged
only_succeeding wr [] h = absurd (ground arith)
only_succeeding wr (t ∷ ticks) h = elim (judged t) [
  | inl (w, e) ↦ inr (w, only_succeeding wr ticks (sym (step_again t ticks e) ∙ h))
  | inr (inl (other, e, s)) ↦
      let same =
        ok_inj other wr
          (sym (step_done ticks other s) ∙ sym (ap (λ x. await_work_request (x ∷ ticks)) e) ∙ h) in
      inl (e ∙ ap (λ x. (true, ok x)) same, subst (λ x. x.lifecycle_state ≡ succeeded) same s)
  | inr (inr (e, s)) ↦ absurd (let k = sym (step_stopped t ticks e s) ∙ h in ground arith)
]

-- AwaitWorkRequest returns a work request exactly where it has succeeded and is the first answer
-- that is neither an unfinished request nor an error to be tried again. So none is returned after
-- a poll that the client's own limiter refuses.
pub await_work_request-exact :
    (wr : WorkRequest) (ticks : List Tick)
    → (await_work_request ticks ≡ ok wr) ↔ SucceedsWith wr ticks
await_work_request-exact wr ticks = (only_succeeding wr ticks, succeeding wr ticks)
