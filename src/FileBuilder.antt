-- ===== src/FileBuilder.antt =====
-- zedio/fs/builder.hpp: the options with which a file is opened, and the flags that `openat` gets. An
-- int is a number below 2^32; the flags are Linux's.
pub mod Flags
mod Tests
use Prim.Native.Nat.{bit_or}
use zedlibs.Prelude.{ℕ, ◌-◌, ◌^◌, Bool, true, false, not, ◌&&◌, if◌then◌else◌}

pub record Builder : Type 0 where
  pub read_ : Bool
  pub write_ : Bool
  pub append_ : Bool
  pub create_ : Bool
  pub truncate_ : Bool
  pub flags_ : ℕ
  pub permission_ : ℕ

abbrev pub o_rdonly : ℕ
o_rdonly = 0

abbrev pub o_wronly : ℕ
o_wronly = 1

abbrev pub o_rdwr : ℕ
o_rdwr = 2

abbrev pub o_creat : ℕ
o_creat = 64

abbrev pub o_trunc : ℕ
o_trunc = 512

abbrev pub o_append : ℕ
o_append = 1024

abbrev pub options : Builder
options = record {
  read_ = false;
  write_ = false;
  append_ = false;
  create_ = false;
  truncate_ = false;
  flags_ = 0;
  permission_ = 0;
}

-- One call of a member that sets an option.
pub data Setting : Type 0 where
  read : Bool → Setting
  write : Bool → Setting
  append : Bool → Setting
  create : Bool → Setting
  truncate : Bool → Setting
  permission : ℕ → Setting
  custom_flags : ℕ → Setting

unfoldable pub set_option : Setting → Builder → Builder
set_option (read on) b = record b { read_ = on }
set_option (write on) b = record b { write_ = on }
set_option (append on) b = record b { append_ = on }
set_option (create on) b = record b { create_ = on }
set_option (truncate on) b = record b { truncate_ = on }
set_option (permission mode) b = record b { permission_ = mode }
set_option (custom_flags flags) b = record b { flags_ = bit_or b.flags_ flags }

-- The first part of `adjust_flags`.
unfoldable pub access_flags : Builder → ℕ
access_flags b =
    if b.read_ && (not b.write_ && not b.append_)
    then bit_or b.flags_ o_rdonly
    else if not b.read_ && (b.write_ && not b.append_)
    then bit_or b.flags_ o_wronly
    else if b.read_ && (b.write_ && not b.append_)
    then bit_or b.flags_ o_rdwr
    else if b.read_ && b.append_
    then bit_or b.flags_ (bit_or o_rdwr o_append)
    else if b.append_
    then bit_or b.flags_ (bit_or o_wronly o_append)
    else 2 ^ 32 - 1

unfoldable pub adjust_flags : Builder → Builder
adjust_flags b =
    let access : ℕ = access_flags b in
    let truncating : ℕ = if b.truncate_ then bit_or access o_trunc else access in
    record b { flags_ = if b.create_ then bit_or truncating o_creat else truncating }

-- The flags and the mode that `openat` gets, and the builder afterwards.
unfoldable pub open_file : Builder → ℕ × ℕ × Builder
open_file b = let b' = adjust_flags b in (b'.flags_, b'.permission_, b')
