-- ===== src/Tests/Files.antt =====
-- A file system for the tests: a map from paths to contents, and one directory.
use env_proxy.Prelude.{
  ◌≡◌, ◌≢◌, refl, [], ◌∷◌, Option, none, some, Result, ok, err, Bool, true, false, if◌then◌else◌,
  arith, ◌∙◌, sym, ap,
}
use env_proxy.Prelude.Bytes.{Bytes, codes, beq, beq_iff, beq_refl}
use env_proxy.Prelude.Map.{Map, get, insert, remove, get-insert, get-remove}
use env_proxy.Io.{ErrorKind, IoError}
use env_proxy.Io.FileSystem.{FileSystem, Removes, View, Reads}
use env_proxy.Cli.Init.Copied.{PlainPaths}

abbrev pub Files : Type 0
Files = Map Bytes

abbrev pub no_entry : IoError
no_entry = record { kind = ErrorKind.not_found; message = codes "no such file" }

abbrev pub in_use : IoError
in_use = record { kind = ErrorKind.other; message = codes "address in use" }

abbrev is_there : Option Bytes → Bool
is_there none = false
is_there (some c) = true

abbrev contents : Option Bytes → Result IoError Bytes
contents none = err no_entry
contents (some c) = ok c

abbrev copied : Bytes → Option Bytes → Files → Result IoError (Unit {0}) × Files
copied to none f = (err no_entry, f)
copied to (some c) f = (ok tt, insert to c f)

abbrev pub on_map : FileSystem Files
on_map = record {
  exists = λ p f. is_there (get p f);
  is_dir = λ p f. beq p (codes "/usr/lib/envproxy/python");
  is_file = λ p f. is_there (get p f);
  read_to_string = λ p f. contents (get p f);
  read_dir = λ p f. ok (ok (codes "site.py") ∷ []);
  create_dir_all = λ p f. (ok tt, f);
  remove_file = λ p f. (ok tt, remove p f);
  bind = λ p f. if is_there (get p f) then (err in_use, f) else (ok tt, insert p [] f);
  copy = λ from to f. copied to (get from f) f;
  write = λ p c f. (ok tt, insert p c f);
  set_permissions = λ p mode f. (ok tt, f);
}

gone : (p : Bytes) (f : Files) → get p (remove p f) ≡ none
gone p f = get-remove p p f ∙ rw (beq_refl p) refl

pub on_map-Removes : Removes on_map
on_map-Removes p f f' h =
    let same : remove p f ≡ f' = cc in
    ap (λ g. is_there (get p g)) (sym same) ∙ ap is_there (gone p f)

get-insert_same : (p c : Bytes) (f : Files) → get p (insert p c f) ≡ some c
get-insert_same p c f = get-insert p p c f ∙ rw (beq_refl p) refl

get-insert_other : (p q c : Bytes) (f : Files) → q ≢ p → get q (insert p c f) ≡ get q f
get-insert_other p q c f apart = get-insert p q c f ∙ ground (arith, beq_iff p q)

after_write : (p c q : Bytes) (f f' : Files) → insert p c f ≡ f' → q ≢ p → get q f' ≡ get q f
after_write p c q f f' same apart = ap (λ g. get q g) (sym same) ∙ get-insert_other p q c f apart

after_copy :
    (to : Bytes) (o : Option Bytes) (f f' : Files)
    → copied to o f ≡ (ok tt, f')
    → (c : Bytes) × (o ≡ some c) × (get to f' ≡ some c)
after_copy to none f f' h = absurd cc
after_copy to (some c) f f' h =
    let same : insert to c f ≡ f' = cc in
    (c, refl, ap (λ g. get to g) (sym same) ∙ get-insert_same to c f)

beside_copy :
    (to q : Bytes) (o : Option Bytes) (f f' : Files)
    → copied to o f ≡ (ok tt, f')
    → q ≢ to
    → get q f' ≡ get q f
beside_copy to q none f f' h apart = absurd cc
beside_copy to q (some c) f f' h apart =
    let same : insert to c f ≡ f' = cc in after_write to c q f f' same apart

unchanged :
    (q : Bytes) (f f' : Files)
    → ◌≡◌ {A = Result IoError (Unit {0}) × Files} (ok tt, f) (ok tt, f')
    → get q f' ≡ get q f
unchanged q f f' h = let same : f ≡ f' = cc in ap (λ g. get q g) (sym same)

-- Every key of the map is a file of its own.
abbrev pub on_map_view : View Files
on_map_view = record { content = λ p f. get p f; IsPlain = λ p. Unit {0} }

pub on_map-Reads : Reads on_map on_map_view
on_map-Reads = record {
  read_write = λ p c f f' plain h.
      let same : insert p c f ≡ f' = cc in ap (λ g. get p g) (sym same) ∙ get-insert_same p c f;
  read_copy = λ from to f f' at plain apart h. after_copy to (get from f) f f' h;
  keep_write = λ p c q f f' plain plain_q h apart.
      let same : insert p c f ≡ f' = cc in after_write p c q f f' same apart;
  keep_copy = λ from to q f f' plain plain_q h apart. beside_copy to q (get from f) f f' h apart;
  keep_create_dir_all = λ p q f f' plain_q h. unchanged q f f' h;
  keep_set_permissions = λ p mode q f f' plain_q h. unchanged q f f' h;
}

pub on_map-PlainPaths : (target : Bytes) → PlainPaths on_map on_map_view target
on_map-PlainPaths target = record {
  files_plain = (tt, tt, (tt, tt, (tt, tt, (tt, tt, tt))));
  config_plain = tt;
  entries_plain = λ f names e name there. tt;
}
