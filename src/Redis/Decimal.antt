-- ===== src/Redis/Decimal.antt =====
-- The facts of Redis/Laws.antt about Lua can be met: numbers are read and printed in decimal.
use armature_ratelimit.Float.Fixed.{fixed_point}
use armature_ratelimit.Headers.Digits.{read_from, to_string_lem}
use armature_ratelimit.Headers.{to_string}
use armature_ratelimit.Prelude.{◌+◌, ◌-◌, ◌*◌, ◌/◌, ◌^◌, refl, ap, some, arith, codes}
use armature_ratelimit.Redis.{Lua}
use armature_ratelimit.Redis.Laws.{IsLua}

abbrev pub decimal : Lua fixed_point
decimal = record {
  tonumber = λ s. some (read_from 0 s * 10 ^ 30);
  arg_text = λ x. to_string (x / 10 ^ 30);
  concat_text = λ x. to_string (x / 10 ^ 30);
  ceil = λ x. (x + (10 ^ 30 - 1)) / 10 ^ 30 * 10 ^ 30;
  floor = λ x. x / 10 ^ 30 * 10 ^ 30;
  of_reply = λ n. n * 10 ^ 30;
  to_reply = λ x. x / 10 ^ 30;
  f64_text = λ x. to_string (x / 10 ^ 30);
  read_u64 = λ s. some (read_from 0 s);
  read_f64 = λ s. some (read_from 0 s * 10 ^ 30);
  nil_error = codes "attempt to perform arithmetic on a nil value";
  type_error = codes "response was of incompatible type";
}

pub decimal-IsLua : IsLua fixed_point decimal
decimal-IsLua = record {
  tonumber_integer = λ n h. rw (to_string_lem n (omega arith)).0 refl;
  arg_text_integer = λ n h. ap to_string (omega arith);
  concat_text_integer = λ n h. ap to_string (omega arith);
  of_reply_integer = λ n h. refl;
  read_u64_integer = λ n h. rw (to_string_lem n (omega arith)).0 refl;
  to_reply-floor = λ x h k. omega arith;
  to_reply_integer = λ n h. omega arith;
}
