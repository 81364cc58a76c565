-- ===== src/Tests/Format.antt =====
-- Runs of the formatters and the pill.
use ai_routing_panel.Format.Pill.{inherited, status_table, status_tone}
use ai_routing_panel.Js.{num, truthy, or_else, to_str, str, to_num, number}
use ai_routing_panel.Tests.Samples.{plain}
use ai_routing_panel.Prelude.{arith, refl, ◌+◌, ◌<◌, ◌*◌, ◌≡◌, ◌≤◌}
use ai_routing_panel.Format.Rounding.{
  human_bytes-print, hundredths_nearest, IsScaled, usage_fraction-le, human_bytes_rolls,
}
use ai_routing_panel.Format.Bytes.{
  print_scaled, human_bytes, units, clamped, scale_from, Scaled, usage_fraction, hundredths,
}

human_bytes-print_example :
    (s : Scaled) × (human_bytes plain (num 1536) ≡ print_scaled s) × IsScaled 1536 s
unfolding number to_num or_else truthy
human_bytes-print_example = human_bytes-print plain (num 1536) 1536 refl

abbrev kilobytes : Scaled
kilobytes = record { value = 1541; divisor = 1024; unit = "KB" }

rounded_run :
    (2 * (hundredths kilobytes * 1024) ≤ 200 * 1541 + 1024)
    × (200 * 1541 < 2 * (hundredths kilobytes * 1024) + 1024)
rounded_run = hundredths_nearest kilobytes (ground arith)

rolls_run : hundredths (scale_from 1048575 1 units) ≡ 102400
rolls_run = human_bytes_rolls 1048575 (ground arith) (ground arith)

quota_in_unit : (3 ≤ 4) × (0 < 4)
unfolding usage_fraction clamped number to_num or_else truthy
quota_in_unit = usage_fraction-le plain (num 3) (num 4) 3 4 refl

-- An inherited property is looked up for the status "constructor".
inherited_run : status_tone plain (str "constructor") ≡ inherited
unfolding status_tone status_table to_str or_else truthy
inherited_run = refl
