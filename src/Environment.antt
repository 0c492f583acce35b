-- ===== src/Environment.antt =====
-- environment.h and environment.c: what the program knows of its surroundings. The options are Booleans.
use mdsort.Base.{Bool, false, Option, none, [], Bytes}
use mdsort.Base.Int.{ℤ, pos}
use mdsort.DateTime.{Tz, tz_local}

pub record Env : Type 0 where
  pub home : Bytes
  pub tmpdir : Bytes
  pub hostname : Bytes
  pub confpath : Option Bytes
  pub tz : Tz
  pub now : ℤ
  pub pid : ℤ
  pub dryrun : Bool
  pub syntax : Bool
  pub is_stdin : Bool

-- Every member is zero.
unfoldable pub environment_init : Env
environment_init = record {
  home = [];
  tmpdir = [];
  hostname = [];
  confpath = none;
  tz = record { state = tz_local; buf = []; offset = pos 0 };
  now = pos 0;
  pid = pos 0;
  dryrun = false;
  syntax = false;
  is_stdin = false;
}
