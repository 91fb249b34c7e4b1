-- ===== src/Schema.antt =====
-- src/fbs/epx.fbs: the tables of a message, and the code that flatcc generates for them, which is a
-- parameter. The integers have the widths of the schema; a field that is not present is none.
use epx_c.Base.{ℕ, ◌≡◌, ◌≢◌, Option, some, List}
use epx_c.InstanceId.{InstanceId, Dependency}
use epx_c.Command.{Key}

pub record SpanTable : Type 0 where
  pub start_key : Option Key
  pub end_key : Option Key

pub record CommandTable : Type 0 where
  pub id : ℕ
  pub spans : List SpanTable
  pub writing : ℕ

pub record InstanceData : Type 0 where
  pub command : Option CommandTable
  pub seq : ℕ
  pub deps : List Dependency

pub record MessageTable : Type 0 where
  pub from : ℕ
  pub to : ℕ
  pub nack : ℕ
  pub ballot : ℕ
  pub instance_id : Option InstanceId
  pub type : Option ℕ
  pub data_of : Option InstanceData
  pub instance_status : ℕ
  pub srt : Option ℕ
  pub stp : Option ℕ

-- `build` finalises a buffer; `root` is `message_as_root`.
pub record Flatcc : Type 0 where
  pub build : MessageTable → List ℕ
  pub root : List ℕ → Option MessageTable

-- What is built is read, but that flatcc leaves a field out that has its default value.
pub record FlatccLaws (f : Flatcc) : Type 0 where
  pub root-build :
      (t : MessageTable)
      → t.type ≢ some 0
      → t.srt ≢ some 0
      → t.stp ≢ some 0
      → f.root (f.build t) ≡ some t
