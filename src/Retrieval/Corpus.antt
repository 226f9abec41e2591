-- ===== src/Retrieval/Corpus.antt =====
-- `_dedupe_chunks` of src/learnarken/retrieval/__init__.py. `by_anchor` is only asked for one key at a time.
pub mod Merged
use learn_arken.Prelude.{
  String, Bool, true, false, not, ◌&&◌, Option, none, some, List, [], ◌∷◌, str_eq, if◌then◌else◌,
  Result, ok, raise, ◌>>=◌,
}
use learn_arken.Prelude.Dict.{Dict}
use learn_arken.Package.Chunk.{Chunk}

-- The `ValueError` for an anchor with two contents
pub data Conflict : Type 0 where
  conflicting : (dmc source_path : String) → Conflict

abbrev pub Anchors : Type 0
Anchors = List (String × String × String)

abbrev pub same_anchor : String → String → String → String → Bool
same_anchor dmc path dmc' path' = str_eq dmc dmc' && str_eq path path'

-- `by_anchor.get((dmc, path))`
unfoldable pub get_anchor : String → String → Anchors → Option String
get_anchor dmc path [] = none
get_anchor dmc path ((dmc', path', id) ∷ m) =
    if same_anchor dmc' path' dmc path then some id else get_anchor dmc path m

-- `by_anchor[(dmc, path)] = id`
unfoldable pub put_anchor : String → String → String → Anchors → Anchors
put_anchor dmc path id [] = (dmc, path, id) ∷ []
put_anchor dmc path id ((dmc', path', old) ∷ m) =
    if same_anchor dmc' path' dmc path
    then (dmc', path', id) ∷ m
    else (dmc', path', old) ∷ put_anchor dmc path id m

-- `by_id.setdefault(id, c)`
unfoldable pub set_default : String → Chunk → Dict Chunk → Dict Chunk
set_default id c [] = (id, c) ∷ []
set_default id c ((id', c') ∷ m) =
    if str_eq id' id then (id', c') ∷ m else (id', c') ∷ set_default id c m

-- The anchor is there with another content.
abbrev pub in_conflict : Chunk → Anchors → Bool
in_conflict c by_anchor = elim (get_anchor c.dmc c.source_path by_anchor) [
  | none ↦ false
  | some id ↦ not (str_eq id c.chunk_id)
]

-- The loop, with both dictionaries.
unfoldable pub merge : List Chunk → Dict Chunk → Anchors → Result Conflict (Dict Chunk)
merge [] by_id by_anchor = ok by_id
merge (c ∷ cs) by_id by_anchor =
    let merged =
      merge cs (set_default c.chunk_id c by_id)
        (put_anchor c.dmc c.source_path c.chunk_id by_anchor) in
    if in_conflict c by_anchor then raise (conflicting c.dmc c.source_path) else merged

abbrev pub values : Dict Chunk → List Chunk
values [] = []
values ((id, c) ∷ m) = c ∷ values m

unfoldable pub dedupe_chunks : List Chunk → Result Conflict (List Chunk)
unfolding merge
dedupe_chunks chunks = do by_id ← merge chunks [] []; ok (values by_id)
