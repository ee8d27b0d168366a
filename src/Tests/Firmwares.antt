-- ===== src/Tests/Firmwares.antt =====
-- The theorem on internal/firmware/firmware.go at concrete inputs.
use codex_claude_monitor.Prelude.{◌<◌, ◌≡◌, ◌↔◌, refl}
use codex_claude_monitor.Prelude.Text.{every}
use codex_claude_monitor.Prelude.Result.{ok, err}
use codex_claude_monitor.Firmware.{
  Version, not_canonical, split_dots, decimal, parse_component, parse_version, compare, below, same,
}
use codex_claude_monitor.Firmware.Order.{rank, parse_version-compare}

abbrev old_version : Version
old_version = record { major = 1; minor = 2; patch = 3 }

abbrev new_version : Version
new_version = record { major = 1; minor = 10; patch = 0 }

old_parsed : parse_version "1.2.3" ≡ ok old_version
unfolding parse_version parse_component split_dots decimal every
old_parsed = refl

new_parsed : parse_version "1.10.0" ≡ ok new_version
unfolding parse_version parse_component split_dots decimal every
new_parsed = refl

zeros_refused : parse_version "1.02.3" ≡ err not_canonical
unfolding parse_version parse_component split_dots decimal every
zeros_refused = refl

parse_version-compare_example :
    ((compare old_version new_version ≡ below) ↔ (rank old_version < rank new_version))
    × ((compare old_version new_version ≡ same) ↔ (old_version ≡ new_version))
parse_version-compare_example =
    parse_version-compare "1.2.3" "1.10.0" old_version new_version old_parsed new_parsed
