-- ===== src/Agent/Server/Run/Cached.antt =====
-- The server with the Vault backend, whose calls go on step by step over one cache.
use env_proxy.Prelude.{
  ℕ, ◌≡◌, refl, sym, ap, ◌∙◌, [], List, Option, none, some, Result, ok, err, Option-cases, inl, inr,
}
use env_proxy.Prelude.Bytes.{Bytes}
use env_proxy.Prelude.Map.{Map}
use env_proxy.Io.{IoError, Stream}
use env_proxy.Proto.VaultRef.{parse_vault_ref}
use env_proxy.Agent.Backend.{Backend, Resolved}
use env_proxy.Agent.Server.{handle_connection}
use env_proxy.Agent.Server.Run.{Calls, Choice, alone, closed, play, at_start}
use env_proxy.Agent.Server.Run.Right.{KeepsTo, play-handled}
use env_proxy.Agent.Vault.{Cache, Kv2, cached, resolve}
use env_proxy.Agent.Vault.Sound.{ArePlain, IsSound, empty-IsSound}
use env_proxy.Agent.Vault.Tasks.{Task, start, missed, fetched, done, look, begin, advance}
use env_proxy.Agent.Vault.Tasks.Shared.{vault_answer, IsRightTask, advance-IsRight}

-- A call of `resolve`, which has its answer at once, or of `resolve_with_value`.
pub data VaultCall : Type 0 where
  plainly : Resolved → VaultCall
  referring : Task → VaultCall

abbrev pub answer_of : Task → Option Resolved
answer_of (start reference) = none
answer_of (missed reference r) = none
answer_of (fetched reference r secret) = none
answer_of (done reference answer) = some answer

abbrev pub answer_of_call : VaultCall → Option Resolved
answer_of_call (plainly r) = some r
answer_of_call (referring t) = answer_of t

unfoldable pub step_call : ℕ → Kv2 → ℕ → VaultCall → Cache → VaultCall × Cache
step_call cache_ttl read now (plainly r) cache = (plainly r, cache)
step_call cache_ttl read now (referring t) cache =
    let (t', cache') = advance cache_ttl read now t cache in (referring t', cache')

abbrev pub vault_calls : ℕ → Kv2 → Calls Cache VaultCall
vault_calls cache_ttl read = record {
  resolve = λ key. plainly (resolve key []).0;
  resolve_with_value = λ key value. referring (start value);
  step = step_call cache_ttl read;
  answered = answer_of_call;
}

-- A backend without a cache: nothing for a key, and Vault's answer for a reference.
abbrev pub without_cache : Kv2 → Backend (Unit {0})
without_cache read = record {
  resolve = λ key u. (ok none, u);
  resolve_with_value = λ key value u. (vault_answer read value, u);
}

abbrev reference_of : Task → Bytes
reference_of (start reference) = reference
reference_of (missed reference r) = reference
reference_of (fetched reference r secret) = reference
reference_of (done reference answer) = reference

begin-reference :
    (now : ℕ) (reference : Bytes) (cache : Cache)
    → reference_of (begin now reference cache) ≡ reference
unfolding begin look
begin-reference now reference cache = elim (Option-cases (parse_vault_ref reference)) [
  | inl e ↦ rw (e, begin) refl
  | inr (r, e) ↦ elim (Option-cases (cached now reference cache)) [
    | inl miss ↦ rw (e, begin, miss, look) refl
    | inr (v, hit) ↦ rw (e, begin, hit, look) refl
  ]
]

module _ (cache_ttl : ℕ) (read : Kv2) where
  advance-reference :
      (now : ℕ) (t : Task) (cache : Cache)
      → reference_of (advance cache_ttl read now t cache).0 ≡ reference_of t
  unfolding advance
  advance-reference now (start reference) cache = begin-reference now reference cache
  advance-reference now (missed reference r) cache = refl
  advance-reference now (fetched reference r (err e)) cache = refl
  advance-reference now (fetched reference r (ok secret)) cache = refl
  advance-reference now (done reference answer) cache = refl

  -- What is true of a call that is to give an answer.
  abbrev IsToGive : Resolved → VaultCall → Type 0
  IsToGive r (plainly answer) = answer ≡ r
  IsToGive r (referring t) = IsRightTask cache_ttl read t × (vault_answer read (reference_of t) ≡ r)

  done-answer :
      (r answer : Resolved) (t : Task)
      → IsToGive r (referring t)
      → answer_of t ≡ some answer
      → answer ≡ r
  done-answer r answer (start reference) h e = absurd cc
  done-answer r answer (missed reference v) h e = absurd cc
  done-answer r answer (fetched reference v secret) h e = absurd cc
  done-answer r answer (done reference said) (right, same) e =
      let there : said ≡ answer = cc in sym there ∙ right ∙ same

  call-answer :
      (r answer : Resolved) (call : VaultCall)
      → IsToGive r call
      → answer_of_call call ≡ some answer
      → answer ≡ r
  call-answer r answer (plainly said) h e = let there : said ≡ answer = cc in sym there ∙ h
  call-answer r answer (referring t) h e = done-answer r answer t h e

  module _
      (plain : (mount path : Bytes) (version : Option ℕ) (secret : Map Bytes)
        → read mount path version ≡ ok secret
        → ArePlain secret) where
    step_call-IsToGive :
        (now : ℕ) (r : Resolved) (call : VaultCall) (cache : Cache)
        → IsSound read cache
        → IsToGive r call
        → IsToGive r (step_call cache_ttl read now call cache).0
          × IsSound read (step_call cache_ttl read now call cache).1
    unfolding step_call
    step_call-IsToGive now r (plainly answer) cache sound h = (h, sound)
    step_call-IsToGive now r (referring t) cache sound (right, same) =
        let (right', sound') = advance-IsRight cache_ttl read plain now t cache sound right in
        ((right', ap (vault_answer read) (advance-reference now t cache) ∙ same), sound')

    keeps : KeepsTo (vault_calls cache_ttl read) (without_cache read)
    unfolding resolve
    keeps = record {
      Holds = IsSound read;
      IsToGive = IsToGive;
      to_resolve = λ key. refl;
      to_resolve_with_value = λ key value. (tt, refl);
      to_step = step_call-IsToGive;
      to_answer = call-answer;
    }

    -- In whatever order the connections are accepted and their tasks go on, with their calls of the
    -- Vault backend interleaved at its await points, and whatever the times: a connection that is over
    -- has the result, and its stream the bytes left and sent, of `handle_connection` alone with a
    -- backend that has no cache and answers each reference as Vault does. A task's reads of its
    -- request, and its writes, are one step each. Vault's secrets stay as they are, and their keys are
    -- not empty and hold no `#`; the cache is empty at first.
    pub play-uncached :
        (streams : ℕ → Stream) (choices : List Choice) (i : ℕ) (r : Result IoError (Unit {0}))
        (stream : Stream)
        → (play (vault_calls cache_ttl read) choices (at_start streams [])).tasks i
          ≡ closed r stream
        → handle_connection (without_cache read) (alone (streams i)) ≡ (r, alone stream)
    unfolding keeps
    play-uncached streams =
        play-handled (vault_calls cache_ttl read) (without_cache read) keeps streams []
          (empty-IsSound read)
