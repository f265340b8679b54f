-- ===== src/Derive/Syntax.antt =====
-- dds_derive/src/lib.rs: what the macros read of a struct. The parser syn is a library: a value
-- holds what its accessors return.
use cyclonedds_rs.Common.{Text, ℕ, List, Bool, Option}

-- `Ident`: its text, and that without the prefix `r#`.
pub record Ident : Type 0 where
  pub text : Text
  pub unraw : Text

-- `PathSegment`: its name, and whether it has arguments.
pub record PathSegment : Type 0 where
  pub name : Text
  pub has_arguments : Bool

-- `Path`: what `get_ident` returns, and the segments, of which there is one at least.
pub record SynPath : Type 0 where
  pub get_ident : Option Text
  pub first_segments : List PathSegment
  pub last_segment : PathSegment

-- The length of an array: an integer literal with what `base10_parse::<u128>` returns, or another
-- expression.
pub data LengthExpr : Type 0 where
  int_literal : Option ℕ → LengthExpr
  other_length : LengthExpr

pub data SynType : Type 0 where
  path_type : SynPath → SynType
  array_type : SynType → LengthExpr → SynType
  other_type : SynType

pub data SynExpr : Type 0 where
  lit_str : Text → SynExpr
  other_expr : SynExpr

pub data Meta : Type 0 where
  path_meta : SynPath → Meta
  list_meta : SynPath → Meta
  name_value : SynPath → SynExpr → Meta

-- The input of one argument: whether a path can be parsed from it, and the meta parsed from it.
pub record ArgInput : Type 0 where
  pub starts_with_path : Bool
  pub parsed : Option Meta

-- The meta of an attribute: the inputs of a parenthesised list, or another form.
pub data AttributeMeta : Type 0 where
  meta_list : List ArgInput → AttributeMeta
  other_meta : AttributeMeta

pub record Attribute : Type 0 where
  pub path : SynPath
  pub meta : AttributeMeta

pub record Field : Type 0 where
  pub ident : Option Ident
  pub ty : SynType
  pub attrs : List Attribute

pub data Fields : Type 0 where
  named_fields : List Field → Fields
  other_fields : List Field → Fields

pub record ItemStruct : Type 0 where
  pub ident : Ident
  pub has_generics : Bool
  pub fields : Fields
  pub attrs : List Attribute
