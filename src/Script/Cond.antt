-- ===== src/Script/Cond.antt =====
-- `ConditionStack` of crates/qubitcoin-script/src/interpreter.rs: the stack of IF conditions kept as
-- its size and the position of its first false, two u32.
pub mod Refine
use qubitcoin.Common.{ℕ, ◌+◌, ◌-◌, ◌%◌, ◌^◌, Bool, true, false, not, ◌&&◌, ◌==◌, if◌then◌else◌}

pub record ConditionStack : Type 0 where
  pub stack_size : ℕ
  pub first_false_pos : ℕ

abbrev pub no_false : ℕ
no_false = 2 ^ 32 - 1

unfoldable pub new : ConditionStack
new = record { stack_size = 0; first_false_pos = no_false }

unfoldable pub is_empty : ConditionStack → Bool
is_empty c = c.stack_size == 0

unfoldable pub all_true : ConditionStack → Bool
all_true c = c.first_false_pos == no_false

unfoldable pub push_back : Bool → ConditionStack → ConditionStack
push_back f c = record {
  stack_size = (c.stack_size + 1) % 2 ^ 32;
  first_false_pos =
      if c.first_false_pos == no_false && not f then c.stack_size else c.first_false_pos;
}

unfoldable pub pop_back : ConditionStack → ConditionStack
pop_back c =
    let size : ℕ = (c.stack_size + 2 ^ 32 - 1) % 2 ^ 32 in
    record {
      stack_size = size;
      first_false_pos = if c.first_false_pos == size then no_false else c.first_false_pos;
    }

unfoldable pub toggle_top : ConditionStack → ConditionStack
toggle_top c =
    let top : ℕ = (c.stack_size + 2 ^ 32 - 1) % 2 ^ 32 in
    record c {
      first_false_pos =
          if c.first_false_pos == no_false
          then top
          else if c.first_false_pos == top
          then no_false
          else c.first_false_pos;
    }
