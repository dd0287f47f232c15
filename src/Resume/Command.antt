-- ===== src/Resume/Command.antt =====
-- What `valid_resume_command` lets through.
use kitmux_linux.Base.{◌≡◌, ◌≤◌, false, some, arith}
use kitmux_linux.Text.{Text, trim, is_empty, byte_len, any, is_control}
use kitmux_linux.Text.Trim.{trim_idem}
use kitmux_linux.Resume.{valid_command}

-- A command that valid_resume_command lets through is trimmed, has 1 to 2,048 bytes and no
-- control character, and is let through again as it is.
pub valid_command_lem :
    (command t : Text)
    → valid_command command ≡ some t
    → (trim t ≡ t)
      × (is_empty t ≡ false)
      × (byte_len t ≤ 2048)
      × (any is_control t ≡ false)
      × (valid_command t ≡ some t)
unfolding valid_command
valid_command_lem command t h = let i = trim_idem command in ground (arith, h, i)
