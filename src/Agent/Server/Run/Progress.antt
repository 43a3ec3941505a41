-- ===== src/Agent/Server/Run/Progress.antt =====
-- `Server::run` of crates/envproxy-agent/src/server.rs with the Vault backend: how many turns a task
-- has left.
use env_proxy.Prelude.{
  ℕ, ◌+◌, ◌-◌, ◌≡◌, ◌≤◌, refl, sym, ap, ◌∙◌, subst, List, [], ◌∷◌, ◌++◌, Option, none, some, Result,
  ok, err, Bool, true, false, not, if◌then◌else◌, arith, Option-cases, inl, inr,
}
use mathlib.Core.Logic.{ite, if_pos, if_neg}
use native.Mathlib.Decide.{ℕ_discrete}
use env_proxy.Prelude.Bytes.{Bytes, is_empty}
use env_proxy.Prelude.Bytes.Search.{starts_with}
use env_proxy.Prelude.Map.{Map}
use env_proxy.Text.Utf8.{from_utf8_lossy}
use env_proxy.Io.{IoError, Stream}
use env_proxy.Proto.Wire.{vault_prefix}
use env_proxy.Proto.VaultRef.{VaultRef, parse_vault_ref}
use env_proxy.Agent.Server.{Conn, handle_connection}
use env_proxy.Agent.Server.Run.{
  Request, unknown, asking, receive_request, alone, start_call, after_receive, after_call, Calls,
  Task, queued, waiting, calling, replying, closed, advance, System, Choice, accept, accept_fails,
  go_on, update, accepted, choose, play, at_start,
}
use env_proxy.Agent.Server.Run.Cached.{
  VaultCall, plainly, referring, step_call, vault_calls, without_cache, play-uncached,
}
use env_proxy.Agent.Vault.{Cache, Kv2, cached}
use env_proxy.Agent.Vault.Sound.{ArePlain}
use env_proxy.Agent.Vault.Tasks
use env_proxy.Agent.Vault.Tasks.{begin, look}

-- How often the task `i` goes on.
abbrev pub turns : ℕ → List Choice → ℕ
turns i [] = 0
turns i (accept j ∷ choices) = turns i choices
turns i (accept_fails ∷ choices) = turns i choices
turns i (go_on j now ∷ choices) = ite (ℕ_discrete j i) 1 0 + turns i choices

-- How many steps are left at most.
abbrev left_of : Tasks.Task → ℕ
left_of (Tasks.start reference) = 5
left_of (Tasks.missed reference r) = 4
left_of (Tasks.fetched reference r secret) = 3
left_of (Tasks.done reference answer) = 2

abbrev left_of_call : VaultCall → ℕ
left_of_call (plainly r) = 2
left_of_call (referring t) = left_of t

abbrev left : Task VaultCall → ℕ
left (queued stream) = 7
left (waiting stream) = 6
left (calling call stream) = left_of_call call
left (replying m stream) = 1
left (closed r stream) = 0

left_of-begin :
    (now : ℕ) (reference : Bytes) (cache : Cache) → left_of (begin now reference cache) ≤ 4
unfolding begin look
left_of-begin now reference cache = elim (Option-cases (parse_vault_ref reference)) [
  | inl e ↦ rw (e, begin) (omega arith)
  | inr (r, e) ↦ elim (Option-cases (cached now reference cache)) [
    | inl miss ↦ rw (e, begin, miss, look) (omega arith)
    | inr (v, hit) ↦ rw (e, begin, hit, look) (omega arith)
  ]
]

abbrev IsClosed : Task VaultCall → Type 0
IsClosed t = (r : Result IoError (Unit {0})) × (stream : Stream) × (t ≡ closed r stream)

left-IsClosed : (t : Task VaultCall) → left t ≤ 0 → IsClosed t
left-IsClosed (closed r stream) h = (r, stream, refl)
left-IsClosed (queued stream) h = absurd (omega arith)
left-IsClosed (waiting stream) h = absurd (omega arith)
left-IsClosed (calling (plainly r) stream) h = absurd (omega arith)
left-IsClosed (calling (referring (Tasks.start v)) stream) h = absurd (omega arith)
left-IsClosed (calling (referring (Tasks.missed v r)) stream) h = absurd (omega arith)
left-IsClosed (calling (referring (Tasks.fetched v r s)) stream) h = absurd (omega arith)
left-IsClosed (calling (referring (Tasks.done v r)) stream) h = absurd (omega arith)
left-IsClosed (replying m stream) h = absurd (omega arith)

module _ (cache_ttl : ℕ) (read : Kv2) where
  abbrev calls : Calls Cache VaultCall
  calls = vault_calls cache_ttl read

  left-start_if :
      (b : Bool) (c c' : VaultCall)
      → left_of_call c ≤ 5
      → left_of_call c' ≤ 5
      → left_of_call (if b then c else c') ≤ 5
  left-start_if true c c' h k = h
  left-start_if false c c' h k = k

  left-start_call : (k : Bytes) (v : Option Bytes) → left_of_call (start_call calls k v) ≤ 5
  unfolding start_call
  left-start_call k none = omega arith
  left-start_call k (some v) =
      let plain = calls.resolve (from_utf8_lossy k) in
      let referred = calls.resolve_with_value (from_utf8_lossy k) (from_utf8_lossy v) in
      left-start_if (not (is_empty v))
        (if starts_with vault_prefix (from_utf8_lossy v) then referred else plain) plain
        (left-start_if (starts_with vault_prefix (from_utf8_lossy v)) referred plain (omega arith)
          (omega arith))
        (omega arith)

  left-after_receive :
      (o : Result IoError Request × Conn (Unit {0})) → left (after_receive calls o) ≤ 5
  unfolding after_receive
  left-after_receive (err e, c) = omega arith
  left-after_receive (ok (unknown version), c) = omega arith
  left-after_receive (ok (asking k v), c) = left-start_call k v

  left-start :
      (now : ℕ) (v : Bytes) (stream : Stream) (s : Cache)
      → left (advance calls now (calling (referring (Tasks.start v)) stream) s).0 + 1
        ≤ left (calling (referring (Tasks.start v)) stream)
  unfolding advance after_call step_call Tasks.advance
  left-start now v stream s = omega (arith, left_of-begin now v s)

  left-missed :
      (now : ℕ) (v : Bytes) (r : VaultRef) (stream : Stream) (s : Cache)
      → left (advance calls now (calling (referring (Tasks.missed v r)) stream) s).0 + 1
        ≤ left (calling (referring (Tasks.missed v r)) stream)
  unfolding advance after_call step_call Tasks.advance
  left-missed now v r stream s = omega arith

  left-failed :
      (now : ℕ) (v : Bytes) (r : VaultRef) (e : Bytes) (stream : Stream) (s : Cache)
      → left (advance calls now (calling (referring (Tasks.fetched v r (err e))) stream) s).0 + 1
        ≤ left (calling (referring (Tasks.fetched v r (err e))) stream)
  unfolding advance after_call step_call Tasks.advance
  left-failed now v r e stream s = omega arith

  left-fetched :
      (now : ℕ) (v : Bytes) (r : VaultRef) (secret : Map Bytes) (stream : Stream) (s : Cache)
      → left (advance calls now (calling (referring (Tasks.fetched v r (ok secret))) stream) s).0
          + 1
        ≤ left (calling (referring (Tasks.fetched v r (ok secret))) stream)
  unfolding advance after_call step_call Tasks.advance
  left-fetched now v r secret stream s = omega arith

  -- Each of its own steps brings a task that was accepted nearer to its end.
  left-advance :
      (now : ℕ) (t : Task VaultCall) (s : Cache)
      → left t ≤ 6
      → left (advance calls now t s).0 + 1 ≤ left t + (1 - left t)
  unfolding advance after_call step_call
  left-advance now (queued stream) s h = absurd (omega arith)
  left-advance now (waiting stream) s h =
      omega (arith, left-after_receive (receive_request (alone stream)))
  left-advance now (calling (plainly r) stream) s h = omega arith
  left-advance now (calling (referring (Tasks.start v)) stream) s h = left-start now v stream s
  left-advance now (calling (referring (Tasks.missed v r)) stream) s h =
      left-missed now v r stream s
  left-advance now (calling (referring (Tasks.fetched v r (err e))) stream) s h =
      left-failed now v r e stream s
  left-advance now (calling (referring (Tasks.fetched v r (ok secret))) stream) s h =
      left-fetched now v r secret stream s
  left-advance now (calling (referring (Tasks.done v r)) stream) s h = omega arith
  left-advance now (replying m stream) s h = omega arith
  left-advance now (closed r stream) s h = omega arith

  left-accepted : (t : Task VaultCall) → left t ≤ 6 → left (accepted t) ≤ left t
  unfolding accepted
  left-accepted (queued stream) h = absurd (omega arith)
  left-accepted (waiting stream) h = omega arith
  left-accepted (calling call stream) h = omega arith
  left-accepted (replying m stream) h = omega arith
  left-accepted (closed r stream) h = omega arith

  go_on-left :
      (tasks : ℕ → Task VaultCall) (i j now : ℕ) (s : Cache)
      → left (tasks i) ≤ 6
      → left (update tasks j (advance calls now (tasks j) s).0 i)
        ≤ left (tasks i) - ite (ℕ_discrete j i) 1 0
  go_on-left tasks i j now s h = elim (ℕ_discrete j i) [
    | yes e ↦
        let step = left-advance now (tasks i) s h in rw (if_pos _ e, if_pos _ e, e) (omega arith)
    | no n ↦ rw (if_neg _ n, if_neg _ n) (omega arith)
  ]

  accept-left :
      (tasks : ℕ → Task VaultCall) (i j : ℕ)
      → left (tasks i) ≤ 6
      → left (update tasks j (accepted (tasks j)) i) ≤ left (tasks i)
  accept-left tasks i j h = elim (ℕ_discrete j i) [
    | yes e ↦ rw (if_pos _ e, e) (left-accepted (tasks i) h)
    | no n ↦ rw (if_neg _ n) (omega arith)
  ]

  accept_if-left :
      (b : Bool) (sys : System Cache VaultCall) (i j : ℕ)
      → left (sys.tasks i) ≤ 6
      → left (
          (if b
              then record sys { tasks = update sys.tasks j (accepted (sys.tasks j)) }
              else sys).tasks
            i)
        ≤ left (sys.tasks i)
  accept_if-left true sys i j h = accept-left sys.tasks i j h
  accept_if-left false sys i j h = omega arith

  choose-left :
      (c : Choice) (sys : System Cache VaultCall) (i : ℕ)
      → left (sys.tasks i) ≤ 6
      → left ((choose calls c sys).tasks i) + turns i (c ∷ [])
        ≤ left (sys.tasks i) + (turns i (c ∷ []) - left (sys.tasks i))
  unfolding choose
  choose-left (accept j) sys i h = omega (arith, accept_if-left sys.listening sys i j h)
  choose-left accept_fails sys i h = omega arith
  choose-left (go_on j now) sys i h = omega (arith, go_on-left sys.tasks i j now sys.shared h)

  play-left :
      (choices : List Choice) (sys : System Cache VaultCall) (i : ℕ)
      → left (sys.tasks i) ≤ 6
      → left ((play calls choices sys).tasks i) ≤ left (sys.tasks i) - turns i choices
  unfolding play
  play-left [] sys i h = omega arith
  play-left (accept j ∷ choices) sys i h =
      let first = choose-left (accept j) sys i h in
      omega (arith, play-left choices (choose calls (accept j) sys) i (omega arith))
  play-left (accept_fails ∷ choices) sys i h =
      let first = choose-left accept_fails sys i h in
      omega (arith, play-left choices (choose calls accept_fails sys) i (omega arith))
  play-left (go_on j now ∷ choices) sys i h =
      let first = choose-left (go_on j now) sys i h in
      omega (arith, play-left choices (choose calls (go_on j now) sys) i (omega arith))

  left-accepted_any : (t : Task VaultCall) → left (accepted t) ≤ 6
  unfolding accepted
  left-accepted_any (queued stream) = omega arith
  left-accepted_any (waiting stream) = omega arith
  left-accepted_any (calling (plainly r) stream) = omega arith
  left-accepted_any (calling (referring (Tasks.start v)) stream) = omega arith
  left-accepted_any (calling (referring (Tasks.missed v r)) stream) = omega arith
  left-accepted_any (calling (referring (Tasks.fetched v r s)) stream) = omega arith
  left-accepted_any (calling (referring (Tasks.done v r)) stream) = omega arith
  left-accepted_any (replying m stream) = omega arith
  left-accepted_any (closed r stream) = omega arith

  choose-accept :
      (sys : System Cache VaultCall) (i : ℕ)
      → sys.listening ≡ true
      → left ((choose calls (accept i) sys).tasks i) ≤ 6
  unfolding choose
  choose-accept sys i open_now =
      rw (open_now, choose, if_pos _ refl) (left-accepted_any (sys.tasks i))

  play-append :
      (before after : List Choice) (sys : System Cache VaultCall)
      → play calls (before ++ after) sys ≡ play calls after (play calls before sys)
  unfolding play
  play-append [] after sys = refl
  play-append (c ∷ before) after sys = play-append before after (choose calls c sys)

  play-IsClosed :
      (before after : List Choice) (sys : System Cache VaultCall) (i : ℕ)
      → (play calls before sys).listening ≡ true
      → 6 ≤ turns i after
      → IsClosed ((play calls (before ++ (accept i ∷ after)) sys).tasks i)
  unfolding play
  play-IsClosed before after sys i open_now enough =
      let mid = choose calls (accept i) (play calls before sys) in
      let six = choose-accept (play calls before sys) i open_now in
      let over =
        left-IsClosed ((play calls after mid).tasks i)
          (omega (arith, play-left after mid i six, enough, six)) in
      subst (λ x. IsClosed (x.tasks i)) (sym (play-append before (accept i ∷ after) sys)) over

  module _
      (plain : (mount path : Bytes) (version : Option ℕ) (secret : Map Bytes)
        → read mount path version ≡ ok secret
        → ArePlain secret) where
    -- A connection that is accepted while the server listens is over once its task has gone on six
    -- times, whatever is chosen before and in between, with the calls of the backend interleaved at its
    -- await points, and whatever the times: it has then the result, and its stream the bytes left and
    -- sent, of `handle_connection` alone with a backend that has no cache and answers each reference as
    -- Vault does. A task's reads of its request, and its writes, are one step each. Vault's secrets
    -- stay as they are, and their keys are not empty and hold no `#`; the cache is empty at first.
    pub play-answered :
        (streams : ℕ → Stream) (before after : List Choice) (i : ℕ)
        → (play calls before (at_start streams [])).listening ≡ true
        → 6 ≤ turns i after
        → (play calls (before ++ (accept i ∷ after)) (at_start streams [])).tasks i
          ≡ closed
              (handle_connection (without_cache read) (alone (streams i))).0
              (handle_connection (without_cache read) (alone (streams i))).1.stream
    play-answered streams before after i open_now enough =
        let (r, stream, over) =
          play-IsClosed before after (at_start streams []) i open_now enough in
        let handled =
          play-uncached cache_ttl read plain streams (before ++ (accept i ∷ after)) i r stream
            over in
        over ∙ sym (ap (λ o. closed o.0 o.1.stream) handled)
