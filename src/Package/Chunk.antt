-- ===== src/Package/Chunk.antt =====
-- `Chunk` of src/learnarken/chunking/base.py, and the `Document` that
-- src/learnarken/chunking/documents.py makes of it. A document's metadata is the chunk without its
-- text, and two keys that the graph route adds.
use learn_arken.Prelude.{ℕ, String, ◌≡◌, refl, Bool, Option, none, List}
use learn_arken.Package.Model.{Applicability}

pub record Metadata : Type 0 where
  pub chunk_id : String
  pub strategy : String
  pub dmc : String
  pub dm_title : String
  pub issue_info : String
  pub chunk_type : String
  pub source_path : String
  pub applicability : Option Applicability
  pub security_classification : Option String
  pub effective_date : Option ℕ
  pub expiry_date : Option ℕ
  pub has_warning : Bool
  pub has_caution : Bool
  pub outbound_dm_refs : List String
  pub icn_refs : List String

pub record Chunk : Type 0 where
  pub meta : Metadata
  pub open meta use *
  pub text : String

pub record Document : Type 0 where
  pub page_content : String
  pub metadata : Metadata
  pub graph_hop : Option ℕ
  pub graph_direction : Option String

unfoldable pub to_document : Chunk → Document
to_document chunk = record {
  page_content = chunk.text;
  metadata = chunk.meta;
  graph_hop = none;
  graph_direction = none;
}

unfoldable pub from_document : Document → Chunk
from_document document = record { meta = document.metadata; text = document.page_content }

-- The bridge is lossless, also through the two keys that the graph route writes in between.
pub from_document-to_document :
    (c : Chunk) (hop : Option ℕ) (direction : Option String)
    → from_document (record (to_document c) { graph_hop = hop; graph_direction = direction }) ≡ c
unfolding from_document to_document
from_document-to_document c hop direction = refl
