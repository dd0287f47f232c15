-- ===== src/Model/Label.antt =====
-- The labels of kitmux-linux/rust/model/src/model.rs.
use kitmux_linux.Base.{Option, none, some, ◌==◌, ◌||◌, length, if◌then◌else◌}
use kitmux_linux.Text.{Text, trim, any, take, is_control}

-- `normalized_optional_label`, which `normalized_required_label` calls and no more.
unfoldable pub normalized_label : Text → Option Text
unfolding trim any take is_control
normalized_label value =
    let value' = trim value in
    if length value' == 0 || any is_control value' then none else some (take 256 value')
