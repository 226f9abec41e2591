-- ===== src/Retrieval/Index.antt =====
-- `index_package` and `verify_corpus` of src/learnarken/retrieval/__init__.py. The state is the manifest's file. Vespa,
-- the embedding model and the graph are `Services`; a package is its directory's path and name and what `corpus_chunks` returns.
pub mod Verified
mod Samples
use learn_arken.Prelude.{
  ℕ, String, Bool, true, false, not, ◌&&◌, Option, none, some, List, [], ◌∷◌, ◌++◌, map, length,
  filter, all, elem, str_eq, str_le, if◌then◌else◌, Result, ok, raise, ◌>>=◌, ◌>>◌,
}
use learn_arken.Prelude.Dict
use learn_arken.Prelude.Dict.{Dict}
use learn_arken.Prelude.Sort.{sort}
use learn_arken.Package.Chunk.{Chunk}
use learn_arken.Retrieval.Search.{ids}
use learn_arken.Retrieval.Corpus.{Conflict, dedupe_chunks}

-- What differs, in `problems`.
pub data Problem : Type 0 where
  other_strategy other_provider other_revision other_ids other_schema : Problem
  -- the message gives their numbers
  other_documents : (unknown missing : List String) → Problem

pub data IndexError : Type 0 where
  names_collide : List String → IndexError
  owned_twice : (chunk_id : String) → (first second : String) → IndexError
  conflict : Conflict → IndexError
  no_owner : (chunk_id : String) → IndexError
  no_manifest : IndexError
  not_verified : List Problem → IndexError
  -- an exception of a service, or of the reading of a package
  service_failed : String → IndexError

-- A member that the file may lack is optional.
pub record Manifest : Type 0 where
  pub packages : List String
  pub strategy : Option String
  pub provider : Option String
  pub revision : Option String
  pub chunk_ids : Option (List String)
  pub schema_digest : Option String
  pub graph : List (String × ℕ)

pub record Services (Vector : Type 0) : Type 0 where
  pub default_provider : String
  pub pinned_revision : String
  pub current_schema : String
  pub is_up : Bool
  pub deploy : Result IndexError (Unit {0})
  pub assert_filtering : Result IndexError (Unit {0})
  pub embed : List String → Result IndexError (List Vector)
  pub feed : List Chunk → List Vector → List String → Result IndexError ℕ
  pub sync : List Chunk → Dict String → Result IndexError (List (String × ℕ))

pub record Package : Type 0 where
  pub path : String
  pub name : String
  pub corpus : Result IndexError (List Chunk)

-- `len(set(names)) != len(names)`
abbrev pub has_duplicate : List String → Bool
has_duplicate [] = false
has_duplicate (name ∷ names) = if elem name names then true else has_duplicate names

abbrev pub Owned : Type 0
Owned = Dict String × List Chunk

-- `_own` on the chunks of one package
unfoldable pub own : String → List Chunk → Owned → Result IndexError Owned
own name [] s = ok s
own name (c ∷ cs) (owner, raw) =
    let owned = own name cs (Dict.put c.chunk_id name owner, raw ++ c ∷ []) in
    elim (Dict.get c.chunk_id owner) [
      | none ↦ owned
      | some first ↦ if str_eq first name then owned else raise (owned_twice c.chunk_id first name)
    ]

unfoldable pub gather : List Package → Owned → Result IndexError Owned
unfolding own
gather [] s = ok s
gather (p ∷ packages) s = do chunks ← p.corpus; s' ← own p.name chunks s; gather packages s'

abbrev pub merging : Result Conflict (List Chunk) → Result IndexError (List Chunk)
merging (ok chunks) = ok chunks
merging (raise e) = raise (conflict e)

abbrev pub names : List Package → List String
names packages = map (λ (p : Package). p.name) packages

abbrev pub check_names : List String → Result IndexError (Unit {0})
check_names given = if has_duplicate given then raise (names_collide (sort str_le given)) else ok tt

-- `[owner[c.chunk_id] for c in chunks]`
unfoldable pub owners_of : Dict String → List Chunk → Result IndexError (List String)
owners_of owner [] = ok []
owners_of owner (c ∷ cs) = elim (Dict.get c.chunk_id owner) [
  | none ↦ raise (no_owner c.chunk_id)
  | some name ↦ owners_of owner cs >>= λ names. ok (name ∷ names)
]

-- The packages' chunks without duplicates, and the owner of each id.
unfoldable pub collected : List Package → Result IndexError (List Chunk × Dict String)
unfolding gather
collected packages = do
  u ← check_names (names packages)
  (owner, raw) ← gather packages ([], [])
  chunks ← merging (dedupe_chunks raw)
  ok (chunks, owner)

module _ {Vector : Type 0} (services : Services Vector) where
  abbrev pub bring_up : Result IndexError (Unit {0})
  bring_up = if services.is_up then ok tt else services.deploy

  -- What is written at the end, and the number of documents that were fed.
  unfoldable pub index_all : List Package → String → Result IndexError (Manifest × ℕ)
  unfolding collected owners_of
  index_all packages strategy = do
    (chunks, owner) ← collected packages
    u ← bring_up
    v ← services.assert_filtering
    vectors ← services.embed (map (λ (c : Chunk). c.text) chunks)
    owners ← owners_of owner chunks
    fed ← services.feed chunks vectors owners
    stats ← services.sync chunks owner
    ok (
      record {
        packages = sort str_le (map (λ (p : Package). p.path) packages);
        strategy = some strategy;
        provider = some services.default_provider;
        revision = some services.pinned_revision;
        chunk_ids = some (sort str_le (ids chunks));
        schema_digest = some services.current_schema;
        graph = stats;
      },
      fed,
    )

  abbrev pub write_last :
      Option Manifest → Result IndexError (Manifest × ℕ) → Option Manifest × Result IndexError ℕ
  write_last file (ok (manifest, fed)) = (some manifest, ok fed)
  write_last file (raise e) = (file, raise e)

  unfoldable pub index_package :
      List Package → String → Option Manifest → Option Manifest × Result IndexError ℕ
  unfolding index_all
  index_package packages strategy file = write_last file (index_all packages strategy)

  abbrev pub same_set : List String → List String → Bool
  same_set xs ys = all (λ x. elem x ys) xs && all (λ y. elem y xs) ys

  abbrev pub is_text : Option String → String → Bool
  is_text none s = false
  is_text (some t) s = str_eq t s

  abbrev pub or_nothing : Option (List String) → List String
  or_nothing none = []
  or_nothing (some is) = is

  abbrev pub unless : Bool → Problem → List Problem
  unless true p = []
  unless false p = p ∷ []

  abbrev pub refuse_problems : List Problem → Result IndexError (Unit {0})
  refuse_problems [] = ok tt
  refuse_problems (p ∷ ps) = raise (not_verified (p ∷ ps))

  abbrev pub outside : List String → List String → List String
  outside xs ys = filter (λ x. not (elem x ys)) xs

  -- `list_doc_ids()` is `engine_ids`.
  unfoldable pub verify_corpus :
      Result IndexError (List String)
      → Option Manifest
      → List Chunk
      → String
      → Result IndexError (Unit {0})
  verify_corpus engine_ids none chunks strategy = raise no_manifest
  verify_corpus engine_ids (some manifest) chunks strategy = do
    held ← engine_ids
    refuse_problems (
        unless (is_text manifest.strategy strategy) other_strategy
        ++ unless (is_text manifest.provider services.default_provider) other_provider
        ++ unless (is_text manifest.revision services.pinned_revision) other_revision
        ++ unless (same_set (or_nothing manifest.chunk_ids) (ids chunks)) other_ids
        ++ unless (is_text manifest.schema_digest services.current_schema) other_schema
        ++ unless (same_set held (ids chunks))
            (other_documents (outside held (ids chunks)) (outside (ids chunks) held)))
