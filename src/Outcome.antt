-- ===== src/Outcome.antt =====
-- What a Go call can end in: a value, an error value, or a run-time panic.
use avacadovnc.Common.{String}

pub data Error : Type 0 where
  -- io.EOF and io.ErrUnexpectedEOF
  eof : Error
  unexpected_eof : Error
  -- encoding/binary was given a type with no fixed size
  invalid_type : Error
  -- the peer is gone: a flush fails
  broken_pipe : Error
  -- errors.New, or fmt.Errorf without %w
  message : String → Error
  -- fmt.Errorf("...: %w", err)
  wrap : String → Error → Error
  -- an error of a decoder of the standard library
  decoder : Error

pub data Fault : Type 0 where
  nil_dereference index_out_of_range stack_overflow : Fault
  -- Not a panic of Go: a loop of the model ran through its rounds.
  out_of_fuel : Fault

pub data Outcome {ℓ} (A : Type ℓ) : Type ℓ where
  ok : A → Outcome A
  err : Error → Outcome A
  panic : Fault → Outcome A
