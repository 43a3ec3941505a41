-- ===== src/Agent/Server/Run/Right.antt =====
-- The invariant of the server, for calls of the backend that keep to answers which depend on no state.
use env_proxy.Prelude.{
  ℕ, ◌≡◌, refl, sym, ap, ◌∙◌, subst, List, [], ◌∷◌, Option, none, some, Result, ok, err, Bool, true,
  false, not, if◌then◌else◌,
}
use mathlib.Core.Logic.{if_pos, if_neg}
use native.Mathlib.Decide.{ℕ_discrete}
use env_proxy.Prelude.Bytes.{Bytes, is_empty}
use env_proxy.Prelude.Bytes.Search.{starts_with}
use env_proxy.Prelude.Action.{continue}
use env_proxy.Text.Utf8.{from_utf8_lossy}
use env_proxy.Io.{IoError, Stream}
use env_proxy.Proto.Wire.{vault_prefix}
use env_proxy.Agent.Backend.{Backend, Resolved}
use env_proxy.Agent.Server.{
  Conn, answer, send_response, resolve_request, response_of, handle_connection,
}
use env_proxy.Agent.Server.Run.{
  Request, unknown, asking, receive_request, Calls, Task, queued, waiting, calling, replying,
  closed, alone, start_call, after_receive, after_call, advance, System, Choice, accept,
  accept_fails, go_on, update, accepted, choose, play, at_start,
}
use env_proxy.Agent.Server.Run.Phases.{respond, handle_connection-phases}

-- The calls keep to the answers of a backend without state: what is true of the shared state, and what
-- is true of a call whose answer is to be `r`.
pub record KeepsTo {S C : Type 0} (calls : Calls S C) (backend : Backend (Unit {0})) : Type 1 where
  pub Holds : S → Type 0
  pub IsToGive : Resolved → C → Type 0
  pub to_resolve : (key : Bytes) → IsToGive (backend.resolve key tt).0 (calls.resolve key)
  pub to_resolve_with_value :
      (key value : Bytes)
      → IsToGive (backend.resolve_with_value key value tt).0 (calls.resolve_with_value key value)
  pub to_step :
      (now : ℕ) (r : Resolved) (call : C) (s : S)
      → Holds s
      → IsToGive r call
      → IsToGive r (calls.step now call s).0 × Holds (calls.step now call s).1
  pub to_answer :
      (r answer : Resolved) (call : C)
      → IsToGive r call
      → calls.answered call ≡ some answer
      → answer ≡ r

module _ {S C : Type 0} (calls : Calls S C) (backend : Backend (Unit {0}))
    (keeps : KeepsTo calls backend) (streams : ℕ → Stream) where
  start_if :
      (b : Bool) (m m' : Unit {0} → Resolved × Unit {0}) (c c' : C)
      → keeps.IsToGive (m tt).0 c
      → keeps.IsToGive (m' tt).0 c'
      → keeps.IsToGive ((if b then m else m') tt).0 (if b then c else c')
  start_if true m m' c c' h k = h
  start_if false m m' c c' h k = k

  start_call-IsToGive :
      (key_buf : Bytes) (value_buf : Option Bytes)
      → keeps.IsToGive
          (resolve_request backend key_buf value_buf tt).0
          (start_call calls key_buf value_buf)
  unfolding resolve_request start_call
  start_call-IsToGive key_buf none = keeps.to_resolve (from_utf8_lossy key_buf)
  start_call-IsToGive key_buf (some val) =
      let key = from_utf8_lossy key_buf in
      let value = from_utf8_lossy val in
      let plainly = keeps.to_resolve key in
      start_if (not (is_empty val))
        (if starts_with vault_prefix value
          then backend.resolve_with_value key value
          else backend.resolve key)
        (backend.resolve key)
        (if starts_with vault_prefix value
          then calls.resolve_with_value key value
          else calls.resolve key)
        (calls.resolve key)
        (start_if (starts_with vault_prefix value) (backend.resolve_with_value key value)
          (backend.resolve key) (calls.resolve_with_value key value) (calls.resolve key)
          (keeps.to_resolve_with_value key value) plainly)
        plainly

  -- What `handle_connection` does with connection `i`.
  abbrev pub handled : ℕ → Result IoError (Unit {0}) × Conn (Unit {0})
  handled i = handle_connection backend (alone (streams i))

  -- A task has done its part of `handle_connection`.
  abbrev IsRightTask : ℕ → Task C → Type 0
  IsRightTask i (queued stream) = stream ≡ streams i
  IsRightTask i (waiting stream) = stream ≡ streams i
  IsRightTask i (calling call stream) =
      (r : Resolved) × keeps.IsToGive r call
      × (handled i ≡ send_response (response_of r) (alone stream))
  IsRightTask i (replying response stream) = handled i ≡ send_response response (alone stream)
  IsRightTask i (closed r stream) = handled i ≡ (r, alone stream)

  after_receive-IsRight :
      (i : ℕ) (o : Result IoError Request × Conn (Unit {0}))
      → handled i ≡ continue o (respond backend)
      → IsRightTask i (after_receive calls o)
  unfolding after_receive answer
  after_receive-IsRight i (err e, c) h = h
  after_receive-IsRight i (ok (unknown version), c) h = h
  after_receive-IsRight i (ok (asking key_buf value_buf), c) h =
      (_, start_call-IsToGive key_buf value_buf, h)

  after_call-IsRight :
      (now i : ℕ) (answer : Option Resolved) (call : C) (stream : Stream) (s : S)
      → calls.answered call ≡ answer
      → keeps.Holds s
      → IsRightTask i (calling call stream)
      → IsRightTask i (after_call calls now answer call stream s).0
        × keeps.Holds (after_call calls now answer call stream s).1
  unfolding after_call
  after_call-IsRight now i none call stream s said holds (r, gives, h) =
      let (gives', holds') = keeps.to_step now r call s holds gives in ((r, gives', h), holds')
  after_call-IsRight now i (some answer) call stream s said holds (r, gives, h) =
      let same = keeps.to_answer r answer call gives said in
      (h ∙ ap (λ x. send_response (response_of x) (alone stream)) (sym same), holds)

  advance-IsRight :
      (now i : ℕ) (t : Task C) (s : S)
      → keeps.Holds s
      → IsRightTask i t
      → IsRightTask i (advance calls now t s).0 × keeps.Holds (advance calls now t s).1
  unfolding advance
  advance-IsRight now i (queued stream) s holds h = (h, holds)
  advance-IsRight now i (waiting stream) s holds h = (
    after_receive-IsRight i (receive_request (alone stream)) (
        ap (λ x. handle_connection backend (alone x)) (sym h)
        ∙ handle_connection-phases backend (alone stream)),
    holds,
  )
  advance-IsRight now i (calling call stream) s holds h =
      after_call-IsRight now i (calls.answered call) call stream s refl holds h
  advance-IsRight now i (replying response stream) s holds h = (h, holds)
  advance-IsRight now i (closed r stream) s holds h = (h, holds)

  accepted-IsRight : (i : ℕ) (t : Task C) → IsRightTask i t → IsRightTask i (accepted t)
  unfolding accepted
  accepted-IsRight i (queued stream) h = h
  accepted-IsRight i (waiting stream) h = h
  accepted-IsRight i (calling call stream) h = h
  accepted-IsRight i (replying response stream) h = h
  accepted-IsRight i (closed r stream) h = h

  pub record IsRight (sys : System S C) : Type 0 where
    pub holds : keeps.Holds sys.shared
    pub right : (i : ℕ) → IsRightTask i (sys.tasks i)

  update-IsRight :
      (tasks : ℕ → Task C) (i : ℕ) (t : Task C)
      → ((j : ℕ) → IsRightTask j (tasks j))
      → IsRightTask i t
      → (j : ℕ) → IsRightTask j (update tasks i t j)
  update-IsRight tasks i t all one j = elim (ℕ_discrete i j) [
    | yes e ↦ rw (if_pos _ e) (subst (λ k. IsRightTask k t) e one)
    | no n ↦ rw (if_neg _ n) (all j)
  ]

  accept-IsRight :
      (b : Bool) (i : ℕ) (sys : System S C)
      → IsRight sys
      → IsRight
          (if b then record sys { tasks = update sys.tasks i (accepted (sys.tasks i)) } else sys)
  accept-IsRight false i sys h = h
  accept-IsRight true i sys h = record {
    holds = h.holds;
    right = update-IsRight sys.tasks i _ h.right (accepted-IsRight i (sys.tasks i) (h.right i));
  }

  choose-IsRight : (c : Choice) (sys : System S C) → IsRight sys → IsRight (choose calls c sys)
  unfolding choose
  choose-IsRight (accept i) sys h = accept-IsRight sys.listening i sys h
  choose-IsRight accept_fails sys h = record { holds = h.holds; right = h.right }
  choose-IsRight (go_on i now) sys h =
      let (one, kept) = advance-IsRight now i (sys.tasks i) sys.shared h.holds (h.right i) in
      record { holds = kept; right = update-IsRight sys.tasks i _ h.right one }

  play-IsRight :
      (choices : List Choice) (sys : System S C) → IsRight sys → IsRight (play calls choices sys)
  unfolding play
  play-IsRight [] sys h = h
  play-IsRight (c ∷ choices) sys h =
      play-IsRight choices (choose calls c sys) (choose-IsRight c sys h)

  -- A connection that is over has had what `handle_connection` does.
  pub play-handled :
      (s : S)
      → keeps.Holds s
      → (choices : List Choice) (i : ℕ) (r : Result IoError (Unit {0})) (stream : Stream)
      → (play calls choices (at_start streams s)).tasks i ≡ closed r stream
      → handled i ≡ (r, alone stream)
  play-handled s holds choices i r stream over =
      let first : IsRight (at_start streams s) = record { holds = holds; right = λ j. refl } in
      let last = play-IsRight choices (at_start streams s) first in
      subst (IsRightTask i) over (last.right i)
