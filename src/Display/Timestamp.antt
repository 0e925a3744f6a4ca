-- ===== src/Display/Timestamp.antt =====
-- client/src/cli/display.c: dates, and how parties are shown. The calendar of libc is an argument.
use shyake.Base.{
  ℕ, suc, ◌*◌, Bool, true, Bytes, Option, none, some, codes, snprintf, ltb, if◌then◌else◌,
}
use shyake.Base.Integer.{ℤ, pos, negsuc}
use shyake.Update.Version.{neg, ◌-ℤ◌, ◌==ℤ◌}
use shyake.Config.{tz_auto}

-- `localtime_r`, `gmtime_r`, and `strftime` into a buffer of that size.
pub record Calendar : Type 1 where
  pub Tm : Type 0
  pub localtime : ℤ → Option Tm
  pub gmtime : ℤ → Option Tm
  pub strftime : ℕ → Bytes → Tm → Bytes

-- `(time_t)tz_hours * 3600`
unfoldable pub seconds_of : ℤ → ℤ
seconds_of (pos hours) = pos (hours * 3600)
seconds_of (negsuc hours) = neg (pos (suc hours * 3600))

-- `now - t < 180 * 24 * 3600`
unfoldable pub is_recent : ℕ → ℤ → Bool
is_recent now t = elim (pos now -ℤ t) [ pos age ↦ ltb age (180 * 24 * 3600) | negsuc ahead ↦ true ]

-- `fmt ? fmt : "%Y-%m-%d %H:%M"`, or the format of recent dates.
unfoldable pub format_of : ℕ → ℤ → Option Bytes → Option Bytes → Bytes
unfolding is_recent
format_of now t fmt fmt_recent =
    let f = elim fmt as (λ _. Bytes) [ none ↦ codes "%Y-%m-%d %H:%M" | some given ↦ given ] in
    elim fmt_recent as (λ _. Bytes) [
      | none ↦ f
      | some recent ↦ if is_recent now t then recent else f
    ]

-- `cli_format_timestamp`
unfoldable pub format_timestamp : Calendar → ℕ → ℤ → ℤ → Option Bytes → Option Bytes → ℕ → Bytes
unfolding seconds_of format_of
format_timestamp C now ts tz_hours fmt fmt_recent buf_len =
    elim (if tz_hours ==ℤ tz_auto
      then C.localtime ts
      else C.gmtime (ts -ℤ neg (seconds_of tz_hours))) [
        | none ↦ snprintf buf_len (codes "?")
        | some tm ↦ C.strftime buf_len (format_of now ts fmt fmt_recent) tm
      ]
