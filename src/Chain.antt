-- ===== src/Chain.antt =====
-- The chain's data as tps-bench reads and builds them: the fields of the packed and the view types
-- of ckb_types that its sources name, and no others. A hash is the number that its bytes denote;
-- the conversions between a type's packed, view and JSON forms are the identity.
use native.Mathlib.Decide.{ℕ_discrete}
use ckb_bench_archived.Base.{ℕ, List, Option}

abbrev pub Byte32 : Type 0
Byte32 = ℕ

abbrev pub Bytes : Type 0
Bytes = List ℕ

-- `ScriptHashType::{Data, Type}`
pub data ScriptHashType : Type 0 where
  by_data by_type : ScriptHashType

pub record Script : Type 0 where
  pub code_hash : Byte32
  pub hash_type : ScriptHashType
  pub args : Bytes

pub record OutPoint : Type 0 where
  pub tx_hash : Byte32
  pub index : ℕ

-- `type_script` is the optional script of the field `type`.
pub record CellOutput : Type 0 where
  pub capacity : ℕ
  pub lock : Script
  pub type_script : Option Script

pub record CellInput : Type 0 where
  pub previous_output : OutPoint
  pub since : ℕ

-- `DepType::{Code, DepGroup}`
pub data DepType : Type 0 where
  code dep_group : DepType

pub record CellDep : Type 0 where
  pub out_point : OutPoint
  pub dep_type : DepType

pub record WitnessArgs : Type 0 where
  pub lock : Option Bytes
  pub input_type : Option Bytes
  pub output_type : Option Bytes

-- What the hash of a transaction covers.
pub record RawTransaction : Type 0 where
  pub cell_deps : List CellDep
  pub inputs : List CellInput
  pub outputs : List CellOutput
  pub outputs_data : List Bytes

-- A view keeps the hash that was computed when it was built.
pub record TransactionView : Type 0 where
  pub hash : Byte32
  pub raw : RawTransaction
  pub open raw use {cell_deps, inputs, outputs, outputs_data}
  pub witnesses : List Bytes

pub record HeaderView : Type 0 where
  pub number : ℕ
  pub hash : Byte32
  pub parent_hash : Byte32
  pub timestamp : ℕ

pub record BlockView : Type 0 where
  pub header : HeaderView
  pub open header use {number, timestamp}
  pub transactions : List TransactionView

unfoldable pub OutPoint-discrete : Discrete OutPoint
unfolding ℕ_discrete
OutPoint-discrete = hlevel ℕ_discrete

unfoldable pub Script-discrete : Discrete Script
unfolding ℕ_discrete
Script-discrete = hlevel ℕ_discrete

unfoldable pub HeaderView-discrete : Discrete HeaderView
unfolding ℕ_discrete
HeaderView-discrete = hlevel ℕ_discrete
