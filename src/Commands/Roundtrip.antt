-- ===== src/Commands/Roundtrip.antt =====
-- Identifiers of commands and their parser.
use kitmux_linux.Base.{◌≡◌, refl, inl, inr, ◌↔◌, some, List, [], ◌∷◌, elem, arith, Bool-cases}
use kitmux_linux.Text.{Text, same_text}
use kitmux_linux.Text.Laws.{same_text_sound}
use kitmux_linux.Commands.{CommandId, all, as_str, find, from_str}

from_str-as_str : (c : CommandId) → from_str (as_str c) ≡ some c
unfolding from_str find as_str same_text elem
from_str-as_str CommandId.terminal_new_tab = refl
from_str-as_str CommandId.browser_new_pane = refl
from_str-as_str CommandId.pane_split_right = refl
from_str-as_str CommandId.pane_split_down = refl
from_str-as_str CommandId.terminal_find = refl
from_str-as_str CommandId.workspace_new = refl
from_str-as_str CommandId.group_new = refl
from_str-as_str CommandId.terminal_next_tab = refl
from_str-as_str CommandId.terminal_previous_tab = refl
from_str-as_str CommandId.group_next = refl
from_str-as_str CommandId.group_previous = refl
from_str-as_str CommandId.pane_close = refl
from_str-as_str CommandId.group_close = refl
from_str-as_str CommandId.workspace_close = refl
from_str-as_str CommandId.workspace_rename = refl
from_str-as_str CommandId.terminal_rename_tab = refl
from_str-as_str CommandId.group_rename = refl
from_str-as_str CommandId.pane_focus_next = refl
from_str-as_str CommandId.pane_focus_previous = refl
from_str-as_str CommandId.pane_focus_left = refl
from_str-as_str CommandId.pane_focus_right = refl
from_str-as_str CommandId.pane_focus_up = refl
from_str-as_str CommandId.pane_focus_down = refl
from_str-as_str CommandId.pane_resize_left = refl
from_str-as_str CommandId.pane_resize_right = refl
from_str-as_str CommandId.pane_resize_up = refl
from_str-as_str CommandId.pane_resize_down = refl
from_str-as_str CommandId.terminal_paste = refl
from_str-as_str CommandId.terminal_copy = refl
from_str-as_str CommandId.terminal_clear_scrollback = refl
from_str-as_str CommandId.notification_jump_unread = refl
from_str-as_str CommandId.terminal_resume_command = refl
from_str-as_str CommandId.app_settings = refl
from_str-as_str CommandId.app_toggle_sidebar = refl
from_str-as_str CommandId.app_install_command_line_tool = refl
from_str-as_str CommandId.app_reload_kitty_config = refl
from_str-as_str CommandId.font_increase = refl
from_str-as_str CommandId.font_decrease = refl
from_str-as_str CommandId.font_reset = refl
from_str-as_str CommandId.tab_close = refl
from_str-as_str CommandId.terminal_select_all = refl
from_str-as_str CommandId.terminal_find_next = refl
from_str-as_str CommandId.terminal_find_previous = refl
from_str-as_str CommandId.pane_zoom = refl
from_str-as_str CommandId.app_full_screen = refl
from_str-as_str CommandId.app_quit = refl
from_str-as_str CommandId.app_help = refl
from_str-as_str CommandId.app_about = refl
from_str-as_str CommandId.app_report_issue = refl

find_sound :
    (value : Text) (cs : List CommandId) (c : CommandId) → find value cs ≡ some c → value ≡ as_str c
unfolding find
find_sound value [] c h = absurd (ground arith)
find_sound value (x ∷ cs) c h = elim (Bool-cases (same_text value (as_str x))) [
  | inl e ↦ let ex : x ≡ c = ground arith in rw (← ex) (same_text_sound value (as_str x) e)
  | inr e ↦ find_sound value cs c (ground arith)
]

-- A text parses to a command exactly if it is the identifier that as_str gives for that command.
pub from_str_iff : (value : Text) (c : CommandId) → (from_str value ≡ some c) ↔ (value ≡ as_str c)
unfolding from_str
from_str_iff value c = (sound, λ e. rw e (from_str-as_str c))
  where
    sound : from_str value ≡ some c → value ≡ as_str c
    sound h = find_sound value all c (ground arith)
