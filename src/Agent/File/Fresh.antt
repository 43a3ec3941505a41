-- ===== src/Agent/File/Fresh.antt =====
-- Any number of `resolve` tasks on one cache, and processes that write the file: what the cache
-- holds under the file's present modification time is the file's present content.
use env_proxy.Prelude.{
  ℕ, ◌≤◌, ◌<◌, ◌≡◌, refl, sym, subst, ◌⊎◌, Option, none, some, Result, ok, err, arith, Bool-cases,
  Result-cases, inl, inr,
}
use mathlib.Core.Logic.{ite, if_pos, if_neg}
use native.Mathlib.Decide.{ℕ_discrete}
use env_proxy.Prelude.Bytes.{Bytes}
use env_proxy.Prelude.Map.{Map}
use env_proxy.Io.{IoError}
use env_proxy.Agent.File.{
  Disk, absent, present, metadata, read_to_string, reading_of, Reading, text, missing, broken,
  FileCache, Task, advance, store, start, statted, reading, loaded, looking, done, new, reload,
  needs_reload, empty_cache,
}

module _ (path : Bytes) (from_str : Bytes → Result Bytes (Map Bytes)) where
  -- The disk, the greatest modification time so far, the cache and the tasks.
  pub record System : Type 0 where
    pub disk : Disk
    pub clock : ℕ
    pub cache : FileCache
    pub tasks : ℕ → Task

  abbrev pub update : (ℕ → Task) → ℕ → Task → ℕ → Task
  update tasks i t j = ite (ℕ_discrete i j) t (tasks j)

  -- A task makes a step, a new call takes the place of a task, or a process writes or removes the
  -- file. Each write gives the file a later modification time than any before.
  pub data Step (s : System) : System → Type 0 where
    run :
        (i : ℕ)
        → Step s (record s {
          cache = (advance path from_str s.disk (s.tasks i) s.cache).1;
          tasks = update s.tasks i (advance path from_str s.disk (s.tasks i) s.cache).0;
        })
    call : (i : ℕ) (key : Bytes) → Step s (record s { tasks = update s.tasks i (start key) })
    write :
        (mtime : ℕ) (contents : Result IoError Bytes)
        → s.clock < mtime
        → Step s (record s { disk = present mtime contents; clock = mtime })
    remove : Step s (record s { disk = absent })

  pub data Reach (s : System) : System → Type 0 where
    here : Reach s s
    next : {t u : System} → Reach s t → Step t u → Reach s u

  -- The entries are what the disk holds now, if it holds a file of time `mtime`.
  abbrev pub MatchesDisk : Disk → ℕ → Map Bytes → Type 0
  MatchesDisk absent mtime entries = Unit {0}
  MatchesDisk (present m contents) mtime entries =
      m ≡ mtime → (c : Bytes) × (contents ≡ ok c) × (from_str c ≡ ok entries)

  abbrev pub IsRead : Disk → ℕ → Reading → Type 0
  IsRead absent mtime r = Unit {0}
  IsRead (present m contents) mtime r = m ≡ mtime → reading_of contents ≡ r

  abbrev pub IsBelow : Disk → ℕ → Type 0
  IsBelow absent clock = Unit {0}
  IsBelow (present m contents) clock = m ≤ clock

  -- What a cache or a task says of the disk, by the time that it has noted.
  abbrev pub IsFreshCache : Disk → ℕ → Option ℕ → Map Bytes → Type 0
  IsFreshCache d clock none entries = Unit {0}
  IsFreshCache d clock (some t) entries = (t ≤ clock) × MatchesDisk d t entries

  abbrev pub IsFreshNote : ℕ → Option ℕ → Type 0
  IsFreshNote clock none = Unit {0}
  IsFreshNote clock (some t) = t ≤ clock

  abbrev pub IsFreshRead : Disk → ℕ → Option ℕ → Reading → Type 0
  IsFreshRead d clock none r = Unit {0}
  IsFreshRead d clock (some t) r = (t ≤ clock) × IsRead d t r

  abbrev pub IsFreshTask : Disk → ℕ → Task → Type 0
  IsFreshTask d clock (start key) = Unit {0}
  IsFreshTask d clock (statted key stamp) = IsFreshNote clock stamp
  IsFreshTask d clock (reading key stamp) = IsFreshNote clock stamp
  IsFreshTask d clock (loaded key stamp r) = IsFreshRead d clock stamp r
  IsFreshTask d clock (looking key) = Unit {0}
  IsFreshTask d clock (done r) = Unit {0}

  pub record IsFresh (s : System) : Type 0 where
    pub below : IsBelow s.disk s.clock
    pub cached : IsFreshCache s.disk s.clock s.cache.last_modified s.cache.entries
    pub noted : (i : ℕ) → IsFreshTask s.disk s.clock (s.tasks i)

  text_read : (r : Result IoError Bytes) (c : Bytes) → reading_of r ≡ text c → r ≡ ok c
  text_read r c h = ground arith

  -- A text that was read under its stamp makes a cache that is fresh under that stamp.
  IsFreshCache-text :
      (d : Disk) (clock : ℕ) (stamp : Option ℕ) (contents : Bytes) (entries : Map Bytes)
      → from_str contents ≡ ok entries
      → IsFreshRead d clock stamp (text contents)
      → IsFreshCache d clock stamp entries
  IsFreshCache-text d clock none contents entries p h = tt
  IsFreshCache-text absent clock (some t) contents entries p h = (h.0, tt)
  IsFreshCache-text (present m r) clock (some t) contents entries p h =
      (h.0, λ e. (contents, text_read r contents (h.1 e), p))

  -- One step of one task.
  advance-IsFresh :
      (d : Disk) (clock : ℕ) (t : Task) (c : FileCache)
      → IsBelow d clock
      → IsFreshCache d clock c.last_modified c.entries
      → IsFreshTask d clock t
      → IsFreshCache d clock
          (advance path from_str d t c).1.last_modified
          (advance path from_str d t c).1.entries
        × IsFreshTask d clock (advance path from_str d t c).0
  unfolding advance
  advance-IsFresh absent clock (start key) c b h n = (h, tt)
  advance-IsFresh (present m r) clock (start key) c b h n = (h, b)
  advance-IsFresh d clock (statted key stamp) c b h n =
      elim (Bool-cases (needs_reload c.last_modified stamp)) [
        | inl reload ↦ rw reload (h, n)
        | inr keep ↦ rw keep (h, tt)
      ]
  advance-IsFresh d clock (reading key none) c b h n = (h, tt)
  advance-IsFresh absent clock (reading key (some t)) c b h n = (h, (n, tt))
  advance-IsFresh (present m r) clock (reading key (some t)) c b h n = (h, (n, λ e. refl))
  advance-IsFresh d clock (loaded key stamp (broken e)) c b h n = (h, tt)
  advance-IsFresh d clock (loaded key stamp missing) c b h n = (tt, tt)
  advance-IsFresh d clock (loaded key stamp (text contents)) c b h n =
      elim (Result-cases (from_str contents)) [
        | inl (entries, e) ↦
            rw (e, store) (IsFreshCache-text d clock stamp contents entries e n, tt)
        | inr (x, e) ↦ rw (e, store) (h, tt)
      ]
  advance-IsFresh d clock (looking key) c b h n = (h, tt)
  advance-IsFresh d clock (done r) c b h n = (h, tt)

  -- A write, or the removal of the file, leaves what is noted true.
  IsFreshCache-write :
      (d : Disk) (clock mtime : ℕ) (r : Result IoError Bytes) (stamp : Option ℕ)
      (entries : Map Bytes)
      → clock < mtime
      → IsFreshCache d clock stamp entries
      → IsFreshCache (present mtime r) mtime stamp entries
  IsFreshCache-write d clock mtime r none entries lt h = tt
  IsFreshCache-write d clock mtime r (some t) entries lt h =
      let old = h.0 in (omega arith, λ e. absurd (omega arith))

  IsFreshTask-write :
      (d : Disk) (clock mtime : ℕ) (r : Result IoError Bytes) (t : Task)
      → clock < mtime
      → IsFreshTask d clock t
      → IsFreshTask (present mtime r) mtime t
  IsFreshTask-write d clock mtime r (statted key none) lt h = tt
  IsFreshTask-write d clock mtime r (statted key (some t)) lt h = omega arith
  IsFreshTask-write d clock mtime r (reading key none) lt h = tt
  IsFreshTask-write d clock mtime r (reading key (some t)) lt h = omega arith
  IsFreshTask-write d clock mtime r (loaded key none x) lt h = tt
  IsFreshTask-write d clock mtime r (loaded key (some t) x) lt h =
      let old = h.0 in (omega arith, λ e. absurd (omega arith))
  IsFreshTask-write d clock mtime r (start key) lt h = tt
  IsFreshTask-write d clock mtime r (looking key) lt h = tt
  IsFreshTask-write d clock mtime r (done x) lt h = tt

  IsFreshCache-remove :
      (d : Disk) (clock : ℕ) (stamp : Option ℕ) (entries : Map Bytes)
      → IsFreshCache d clock stamp entries
      → IsFreshCache absent clock stamp entries
  IsFreshCache-remove d clock none entries h = tt
  IsFreshCache-remove d clock (some t) entries h = (h.0, tt)

  IsFreshTask-remove :
      (d : Disk) (clock : ℕ) (t : Task) → IsFreshTask d clock t → IsFreshTask absent clock t
  IsFreshTask-remove d clock (loaded key none x) h = tt
  IsFreshTask-remove d clock (loaded key (some t) x) h = (h.0, tt)
  IsFreshTask-remove d clock (statted key stamp) h = h
  IsFreshTask-remove d clock (reading key stamp) h = h
  IsFreshTask-remove d clock (start key) h = tt
  IsFreshTask-remove d clock (looking key) h = tt
  IsFreshTask-remove d clock (done x) h = tt

  IsFreshTask-update :
      (d : Disk) (clock : ℕ) (tasks : ℕ → Task) (i : ℕ) (t : Task)
      → ((j : ℕ) → IsFreshTask d clock (tasks j))
      → IsFreshTask d clock t
      → (j : ℕ) → IsFreshTask d clock (update tasks i t j)
  IsFreshTask-update d clock tasks i t all one j = elim (ℕ_discrete i j) [
    | yes e ↦ rw (if_pos _ e) one
    | no n ↦ rw (if_neg _ n) (all j)
  ]

  Step-IsFresh : {s t : System} → Step s t → IsFresh s → IsFresh t
  Step-IsFresh {s} (run i) h =
      let (cached, noted) =
        advance-IsFresh s.disk s.clock (s.tasks i) s.cache h.below h.cached (h.noted i) in
      record {
        below = h.below;
        cached = cached;
        noted = IsFreshTask-update s.disk s.clock s.tasks i _ h.noted noted;
      }
  Step-IsFresh {s} (call i key) h = record {
    below = h.below;
    cached = h.cached;
    noted = IsFreshTask-update s.disk s.clock s.tasks i (start key) h.noted tt;
  }
  Step-IsFresh {s} (write mtime r lt) h = record {
    below = omega arith;
    cached =
        IsFreshCache-write s.disk s.clock mtime r s.cache.last_modified s.cache.entries lt h.cached;
    noted = λ j. IsFreshTask-write s.disk s.clock mtime r (s.tasks j) lt (h.noted j);
  }
  Step-IsFresh {s} remove h = record {
    below = tt;
    cached = IsFreshCache-remove s.disk s.clock s.cache.last_modified s.cache.entries h.cached;
    noted = λ j. IsFreshTask-remove s.disk s.clock (s.tasks j) (h.noted j);
  }

  -- From a state that is fresh, as one with an empty cache and no running call is, and however the
  -- tasks of one cache and the writers of the file are interleaved, the state is fresh: if the cache
  -- notes the modification time that the file has now, its entries are parsed from what the file holds
  -- now.
  pub Reach-IsFresh : {s t : System} → IsFresh s → Reach s t → IsFresh t
  Reach-IsFresh h here = h
  Reach-IsFresh h (next r st) = Step-IsFresh st (Reach-IsFresh h r)

  -- `new` starts empty, or with the entries of the text that it read.
  new_cache :
      (d : Disk) (c : FileCache)
      → new path from_str d d ≡ ok c
      → (c ≡ empty_cache)
        ⊎ ((contents : Bytes) × (entries : Map Bytes) × (read_to_string d ≡ ok contents)
            × (from_str contents ≡ ok entries)
            × (c ≡ record { entries = entries; last_modified = metadata d }))
  unfolding new
  new_cache absent c h = inl (ground arith)
  new_cache (present m (ok contents)) c h = elim (Result-cases (from_str contents)) [
    | inl (entries, e) ↦ inr (contents, entries, refl, e, ground arith)
    | inr (x, e) ↦ absurd (ground arith)
  ]
  new_cache (present m (err e)) c h = inl (ground arith)

  IsFreshCache-loaded :
      (d : Disk) (clock : ℕ) (contents : Bytes) (entries : Map Bytes)
      → IsBelow d clock
      → read_to_string d ≡ ok contents
      → from_str contents ≡ ok entries
      → IsFreshCache d clock (metadata d) entries
  IsFreshCache-loaded absent clock contents entries b r p = tt
  IsFreshCache-loaded (present m r) clock contents entries b e p = (b, λ x. (contents, e, p))

  -- A cache that `new` has loaded from a disk that did not change meanwhile is fresh.
  pub new-IsFreshCache :
      (d : Disk) (clock : ℕ) (c : FileCache)
      → IsBelow d clock
      → new path from_str d d ≡ ok c
      → IsFreshCache d clock c.last_modified c.entries
  new-IsFreshCache d clock c b h = elim (new_cache d c h) [
    | inl e ↦ subst (λ (x : FileCache). IsFreshCache d clock x.last_modified x.entries) (sym e) tt
    | inr (text_there, entries, r, p, e) ↦
        subst (λ (x : FileCache). IsFreshCache d clock x.last_modified x.entries) (sym e)
          (IsFreshCache-loaded d clock text_there entries b r p)
  ]
