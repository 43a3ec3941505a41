-- ===== src/Agent/Vault/Tasks/Shared.antt =====
-- Any interleaving of calls of `resolve_with_value` over one cache, while Vault's secrets stay as they are.
use env_proxy.Prelude.{
  ℕ, ◌+◌, ◌≡◌, refl, sym, ap, ◌∙◌, subst, [], ◌++◌, Option, none, some, ok, err, Option-cases, inl,
  inr,
}
use mathlib.Core.Logic.{ite, if_pos, if_neg}
use native.Mathlib.Decide.{ℕ_discrete}
use env_proxy.Prelude.Bytes.{Bytes, codes}
use env_proxy.Prelude.Map.{Map, get}
use env_proxy.Proto.VaultRef.{VaultRef, parse_vault_ref}
use env_proxy.Proto.VaultRef.Canonical.{parse_vault_ref-IsCanonical}
use env_proxy.Agent.Backend.{http, parse, Resolved}
use env_proxy.Agent.Vault.{Cache, Kv2, cached, nanos}
use env_proxy.Agent.Vault.Sound.{ArePlain, IsHeld, IsSound, store_secret-IsSound, empty-IsSound}
use env_proxy.Agent.Vault.Calls.{cached_value}
use env_proxy.Agent.Vault.Tasks.{Task, start, missed, fetched, done, look, begin, advance}

-- What Vault says under a reference.
unfoldable pub looked_up : Kv2 → VaultRef → Resolved
looked_up read r = elim (read r.mount r.path r.version) [
  | err e ↦ err (http (codes "vault read: " ++ e))
  | ok secret ↦ ok (get r.key secret)
]

unfoldable pub vault_answer : Kv2 → Bytes → Resolved
vault_answer read reference = elim (parse_vault_ref reference) [
  | none ↦ err (parse (codes "invalid vault reference: " ++ reference))
  | some r ↦ looked_up read r
]

module _ (cache_ttl : ℕ) (read : Kv2) where
  -- The cache, and the calls.
  pub record System : Type 0 where
    pub cache : Cache
    pub tasks : ℕ → Task

  abbrev pub update : (ℕ → Task) → ℕ → Task → ℕ → Task
  update tasks i t j = ite (ℕ_discrete i j) t (tasks j)

  -- A call makes a step at some time, or a new call takes the place of one.
  pub data Step (s : System) : System → Type 0 where
    run :
        (i now : ℕ)
        → Step s (record {
          cache = (advance cache_ttl read now (s.tasks i) s.cache).1;
          tasks = update s.tasks i (advance cache_ttl read now (s.tasks i) s.cache).0;
        })
    call :
        (i : ℕ) (reference : Bytes)
        → Step s (record s { tasks = update s.tasks i (start reference) })

  pub data Reach (s : System) : System → Type 0 where
    here : Reach s s
    next : {t u : System} → Reach s t → Step t u → Reach s u

  -- Nothing is cached, and each call is about to start.
  abbrev pub at_start : (ℕ → Bytes) → System
  at_start references = record { cache = []; tasks = λ i. start (references i) }

  -- What a call has noted is true of Vault.
  abbrev pub IsRightTask : Task → Type 0
  IsRightTask (start reference) = Unit {0}
  IsRightTask (missed reference r) = parse_vault_ref reference ≡ some r
  IsRightTask (fetched reference r secret) =
      (parse_vault_ref reference ≡ some r) × (secret ≡ read r.mount r.path r.version)
  IsRightTask (done reference answer) = answer ≡ vault_answer read reference

  record IsRight (s : System) : Type 0 where
    sound : IsSound read s.cache
    right : (i : ℕ) → IsRightTask (s.tasks i)

  vault_answer-parsed :
      (reference : Bytes) (r : VaultRef)
      → parse_vault_ref reference ≡ some r
      → vault_answer read reference ≡ looked_up read r
  unfolding vault_answer
  vault_answer-parsed reference r parsed = rw (parsed, vault_answer) refl

  vault_answer-unparsed :
      (reference : Bytes)
      → parse_vault_ref reference ≡ none
      → vault_answer read reference ≡ err (parse (codes "invalid vault reference: " ++ reference))
  unfolding vault_answer
  vault_answer-unparsed reference e = rw (e, vault_answer) refl

  vault_answer-IsHeld :
      (reference v : Bytes) (r : VaultRef)
      → parse_vault_ref reference ≡ some r
      → IsHeld read r v
      → ok (some v) ≡ vault_answer read reference
  unfolding looked_up
  vault_answer-IsHeld reference v r parsed (secret, got, there) =
      sym (vault_answer-parsed reference r parsed ∙ rw (got, looked_up) (ap ok there))

  module _
      (plain : (mount path : Bytes) (version : Option ℕ) (secret : Map Bytes)
        → read mount path version ≡ ok secret
        → ArePlain secret) where
    look-IsRight :
        (now : ℕ) (reference : Bytes) (r : VaultRef) (cache : Cache)
        → IsSound read cache
        → parse_vault_ref reference ≡ some r
        → IsRightTask (look now reference r cache)
    unfolding look
    look-IsRight now reference r cache sound parsed =
        elim (Option-cases (cached now reference cache)) [
          | inl miss ↦ rw (miss, look) parsed
          | inr (v, hit) ↦
              let (entry, there, same) =
                cached_value read plain cache_ttl now reference cache v hit in
              let held : IsHeld read r v =
                subst (λ u. IsHeld read r u) same (sound reference entry r there parsed) in
              rw (hit, look) (vault_answer-IsHeld reference v r parsed held)
        ]

    begin-IsRight :
        (now : ℕ) (reference : Bytes) (cache : Cache)
        → IsSound read cache
        → IsRightTask (begin now reference cache)
    unfolding begin
    begin-IsRight now reference cache sound = elim (Option-cases (parse_vault_ref reference)) [
      | inl e ↦ rw (e, begin) (sym (vault_answer-unparsed reference e))
      | inr (r, e) ↦ rw (e, begin) (look-IsRight now reference r cache sound e)
    ]

    -- One step of one call.
    pub advance-IsRight :
        (now : ℕ) (t : Task) (cache : Cache)
        → IsSound read cache
        → IsRightTask t
        → IsRightTask (advance cache_ttl read now t cache).0
          × IsSound read (advance cache_ttl read now t cache).1
    unfolding advance looked_up
    advance-IsRight now (start reference) cache sound h =
        (begin-IsRight now reference cache sound, sound)
    advance-IsRight now (missed reference r) cache sound h = ((h, refl), sound)
    advance-IsRight now (fetched reference r (err e)) cache sound h =
        (sym (vault_answer-parsed reference r h.0 ∙ rw (looked_up, sym h.1) refl), sound)
    advance-IsRight now (fetched reference r (ok secret)) cache sound h = (
      sym (vault_answer-parsed reference r h.0 ∙ rw (looked_up, sym h.1) refl),
      store_secret-IsSound read r (now + nanos cache_ttl) secret cache
          (parse_vault_ref-IsCanonical reference r h.0) (sym h.1)
          (plain r.mount r.path r.version secret (sym h.1)) sound,
    )
    advance-IsRight now (done reference answer) cache sound h = (h, sound)

    update-IsRight :
        (tasks : ℕ → Task) (i : ℕ) (t : Task)
        → ((j : ℕ) → IsRightTask (tasks j))
        → IsRightTask t
        → (j : ℕ) → IsRightTask (update tasks i t j)
    update-IsRight tasks i t all one j = elim (ℕ_discrete i j) [
      | yes e ↦ rw (if_pos _ e) one
      | no n ↦ rw (if_neg _ n) (all j)
    ]

    Step-IsRight : {s t : System} → Step s t → IsRight s → IsRight t
    Step-IsRight {s} (run i now) h =
        let (right, sound) = advance-IsRight now (s.tasks i) s.cache h.sound (h.right i) in
        record { sound = sound; right = update-IsRight s.tasks i _ h.right right }
    Step-IsRight {s} (call i reference) h = record {
      sound = h.sound;
      right = update-IsRight s.tasks i (start reference) h.right tt;
    }

    Reach-IsRight : {s t : System} → IsRight s → Reach s t → IsRight t
    Reach-IsRight h here = h
    Reach-IsRight h (next r st) = Step-IsRight st (Reach-IsRight h r)

    -- However the calls of `resolve_with_value` over one cache are interleaved, and whatever the
    -- times: each call that is done has the answer that Vault gives for its reference. Vault's secrets
    -- stay as they are, and their keys are not empty and hold no `#`; the cache is empty at first.
    pub Reach-vault_answer :
        (references : ℕ → Bytes) (t : System) (i : ℕ) (reference : Bytes) (answer : Resolved)
        → Reach (at_start references) t
        → t.tasks i ≡ done reference answer
        → answer ≡ vault_answer read reference
    Reach-vault_answer references t i reference answer reached finished =
        let first : IsRight (at_start references) = record {
          sound = empty-IsSound read;
          right = λ j. tt;
        } in
        let last = Reach-IsRight first reached in
        subst (λ task. IsRightTask task) finished (last.right i)
