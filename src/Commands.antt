-- ===== src/Commands.antt =====
-- The commands of kitmux-linux/rust/model/src/commands.rs, from the table that its macro expands:
-- their identifiers, their actions, and the parser of identifiers. A string is its bytes.
pub mod Roundtrip
use kitmux_linux.Base.{
  ℕ, Bool, true, false, ◌||◌, Option, none, some, List, [], ◌∷◌, ◌==◌, ltb, length, elem,
  if◌then◌else◌,
}
use kitmux_linux.Base.Int.{ℤ, pos, negsuc}
use kitmux_linux.Split.{SplitAxis, Direction}
use kitmux_linux.Text.{Text, same_text}

pub data SemanticAction : Type 0 where
  new_terminal_tab new_browser_pane find_in_terminal new_workspace new_group close_pane :
      SemanticAction
  close_group close_workspace rename_workspace rename_tab rename_group paste : SemanticAction
  copy clear_scrollback jump_to_unread set_resume_command open_settings toggle_sidebar :
      SemanticAction
  install_command_line_tool reload_kitty_config font_reset close_tab select_all find_next :
      SemanticAction
  find_previous zoom_pane full_screen quit help about : SemanticAction
  report_issue : SemanticAction
  split : SplitAxis → SemanticAction
  cycle_tab cycle_group cycle_pane_focus font_delta : ℤ → SemanticAction
  move_pane_focus resize_pane : Direction → SemanticAction

pub data CommandId : Type 0 where
  terminal_new_tab browser_new_pane pane_split_right pane_split_down : CommandId
  terminal_find workspace_new group_new terminal_next_tab : CommandId
  terminal_previous_tab group_next group_previous pane_close : CommandId
  group_close workspace_close workspace_rename terminal_rename_tab : CommandId
  group_rename pane_focus_next pane_focus_previous pane_focus_left : CommandId
  pane_focus_right pane_focus_up pane_focus_down pane_resize_left : CommandId
  pane_resize_right pane_resize_up pane_resize_down terminal_paste : CommandId
  terminal_copy terminal_clear_scrollback notification_jump_unread terminal_resume_command :
      CommandId
  app_settings app_toggle_sidebar app_install_command_line_tool app_reload_kitty_config : CommandId
  font_increase font_decrease font_reset tab_close : CommandId
  terminal_select_all terminal_find_next terminal_find_previous pane_zoom : CommandId
  app_full_screen app_quit app_help app_about : CommandId
  app_report_issue : CommandId

-- `CommandId::ALL`
abbrev pub all : List CommandId
all =
    CommandId.terminal_new_tab ∷ CommandId.browser_new_pane ∷ CommandId.pane_split_right
    ∷ CommandId.pane_split_down ∷ CommandId.terminal_find ∷ CommandId.workspace_new
    ∷ CommandId.group_new ∷ CommandId.terminal_next_tab ∷ CommandId.terminal_previous_tab
    ∷ CommandId.group_next ∷ CommandId.group_previous ∷ CommandId.pane_close ∷ CommandId.group_close
    ∷ CommandId.workspace_close ∷ CommandId.workspace_rename ∷ CommandId.terminal_rename_tab
    ∷ CommandId.group_rename ∷ CommandId.pane_focus_next ∷ CommandId.pane_focus_previous
    ∷ CommandId.pane_focus_left ∷ CommandId.pane_focus_right ∷ CommandId.pane_focus_up
    ∷ CommandId.pane_focus_down ∷ CommandId.pane_resize_left ∷ CommandId.pane_resize_right
    ∷ CommandId.pane_resize_up ∷ CommandId.pane_resize_down ∷ CommandId.terminal_paste
    ∷ CommandId.terminal_copy ∷ CommandId.terminal_clear_scrollback
    ∷ CommandId.notification_jump_unread ∷ CommandId.terminal_resume_command
    ∷ CommandId.app_settings ∷ CommandId.app_toggle_sidebar
    ∷ CommandId.app_install_command_line_tool ∷ CommandId.app_reload_kitty_config
    ∷ CommandId.font_increase ∷ CommandId.font_decrease ∷ CommandId.font_reset ∷ CommandId.tab_close
    ∷ CommandId.terminal_select_all ∷ CommandId.terminal_find_next
    ∷ CommandId.terminal_find_previous ∷ CommandId.pane_zoom ∷ CommandId.app_full_screen
    ∷ CommandId.app_quit ∷ CommandId.app_help ∷ CommandId.app_about ∷ CommandId.app_report_issue
    ∷ []

unfoldable pub as_str : CommandId → Text
as_str CommandId.terminal_new_tab =
    116 ∷ 101 ∷ 114 ∷ 109 ∷ 105 ∷ 110 ∷ 97 ∷ 108 ∷ 46 ∷ 110 ∷ 101 ∷ 119 ∷ 45 ∷ 116 ∷ 97 ∷ 98 ∷ []
as_str CommandId.browser_new_pane =
    98 ∷ 114 ∷ 111 ∷ 119 ∷ 115 ∷ 101 ∷ 114 ∷ 46 ∷ 110 ∷ 101 ∷ 119 ∷ 45 ∷ 112 ∷ 97 ∷ 110 ∷ 101 ∷ []
as_str CommandId.pane_split_right =
    112 ∷ 97 ∷ 110 ∷ 101 ∷ 46 ∷ 115 ∷ 112 ∷ 108 ∷ 105 ∷ 116 ∷ 45 ∷ 114 ∷ 105 ∷ 103 ∷ 104 ∷ 116 ∷ []
as_str CommandId.pane_split_down =
    112 ∷ 97 ∷ 110 ∷ 101 ∷ 46 ∷ 115 ∷ 112 ∷ 108 ∷ 105 ∷ 116 ∷ 45 ∷ 100 ∷ 111 ∷ 119 ∷ 110 ∷ []
as_str CommandId.terminal_find =
    116 ∷ 101 ∷ 114 ∷ 109 ∷ 105 ∷ 110 ∷ 97 ∷ 108 ∷ 46 ∷ 102 ∷ 105 ∷ 110 ∷ 100 ∷ []
as_str CommandId.workspace_new =
    119 ∷ 111 ∷ 114 ∷ 107 ∷ 115 ∷ 112 ∷ 97 ∷ 99 ∷ 101 ∷ 46 ∷ 110 ∷ 101 ∷ 119 ∷ []
as_str CommandId.group_new = 103 ∷ 114 ∷ 111 ∷ 117 ∷ 112 ∷ 46 ∷ 110 ∷ 101 ∷ 119 ∷ []
as_str CommandId.terminal_next_tab =
    116 ∷ 101 ∷ 114 ∷ 109 ∷ 105 ∷ 110 ∷ 97 ∷ 108 ∷ 46 ∷ 110 ∷ 101 ∷ 120 ∷ 116 ∷ 45 ∷ 116 ∷ 97 ∷ 98
    ∷ []
as_str CommandId.terminal_previous_tab =
    116 ∷ 101 ∷ 114 ∷ 109 ∷ 105 ∷ 110 ∷ 97 ∷ 108 ∷ 46 ∷ 112 ∷ 114 ∷ 101 ∷ 118 ∷ 105 ∷ 111 ∷ 117
    ∷ 115 ∷ 45 ∷ 116 ∷ 97 ∷ 98 ∷ []
as_str CommandId.group_next = 103 ∷ 114 ∷ 111 ∷ 117 ∷ 112 ∷ 46 ∷ 110 ∷ 101 ∷ 120 ∷ 116 ∷ []
as_str CommandId.group_previous =
    103 ∷ 114 ∷ 111 ∷ 117 ∷ 112 ∷ 46 ∷ 112 ∷ 114 ∷ 101 ∷ 118 ∷ 105 ∷ 111 ∷ 117 ∷ 115 ∷ []
as_str CommandId.pane_close = 112 ∷ 97 ∷ 110 ∷ 101 ∷ 46 ∷ 99 ∷ 108 ∷ 111 ∷ 115 ∷ 101 ∷ []
as_str CommandId.group_close = 103 ∷ 114 ∷ 111 ∷ 117 ∷ 112 ∷ 46 ∷ 99 ∷ 108 ∷ 111 ∷ 115 ∷ 101 ∷ []
as_str CommandId.workspace_close =
    119 ∷ 111 ∷ 114 ∷ 107 ∷ 115 ∷ 112 ∷ 97 ∷ 99 ∷ 101 ∷ 46 ∷ 99 ∷ 108 ∷ 111 ∷ 115 ∷ 101 ∷ []
as_str CommandId.workspace_rename =
    119 ∷ 111 ∷ 114 ∷ 107 ∷ 115 ∷ 112 ∷ 97 ∷ 99 ∷ 101 ∷ 46 ∷ 114 ∷ 101 ∷ 110 ∷ 97 ∷ 109 ∷ 101 ∷ []
as_str CommandId.terminal_rename_tab =
    116 ∷ 101 ∷ 114 ∷ 109 ∷ 105 ∷ 110 ∷ 97 ∷ 108 ∷ 46 ∷ 114 ∷ 101 ∷ 110 ∷ 97 ∷ 109 ∷ 101 ∷ 45 ∷ 116
    ∷ 97 ∷ 98 ∷ []
as_str CommandId.group_rename =
    103 ∷ 114 ∷ 111 ∷ 117 ∷ 112 ∷ 46 ∷ 114 ∷ 101 ∷ 110 ∷ 97 ∷ 109 ∷ 101 ∷ []
as_str CommandId.pane_focus_next =
    112 ∷ 97 ∷ 110 ∷ 101 ∷ 46 ∷ 102 ∷ 111 ∷ 99 ∷ 117 ∷ 115 ∷ 45 ∷ 110 ∷ 101 ∷ 120 ∷ 116 ∷ []
as_str CommandId.pane_focus_previous =
    112 ∷ 97 ∷ 110 ∷ 101 ∷ 46 ∷ 102 ∷ 111 ∷ 99 ∷ 117 ∷ 115 ∷ 45 ∷ 112 ∷ 114 ∷ 101 ∷ 118 ∷ 105 ∷ 111
    ∷ 117 ∷ 115 ∷ []
as_str CommandId.pane_focus_left =
    112 ∷ 97 ∷ 110 ∷ 101 ∷ 46 ∷ 102 ∷ 111 ∷ 99 ∷ 117 ∷ 115 ∷ 45 ∷ 108 ∷ 101 ∷ 102 ∷ 116 ∷ []
as_str CommandId.pane_focus_right =
    112 ∷ 97 ∷ 110 ∷ 101 ∷ 46 ∷ 102 ∷ 111 ∷ 99 ∷ 117 ∷ 115 ∷ 45 ∷ 114 ∷ 105 ∷ 103 ∷ 104 ∷ 116 ∷ []
as_str CommandId.pane_focus_up =
    112 ∷ 97 ∷ 110 ∷ 101 ∷ 46 ∷ 102 ∷ 111 ∷ 99 ∷ 117 ∷ 115 ∷ 45 ∷ 117 ∷ 112 ∷ []
as_str CommandId.pane_focus_down =
    112 ∷ 97 ∷ 110 ∷ 101 ∷ 46 ∷ 102 ∷ 111 ∷ 99 ∷ 117 ∷ 115 ∷ 45 ∷ 100 ∷ 111 ∷ 119 ∷ 110 ∷ []
as_str CommandId.pane_resize_left =
    112 ∷ 97 ∷ 110 ∷ 101 ∷ 46 ∷ 114 ∷ 101 ∷ 115 ∷ 105 ∷ 122 ∷ 101 ∷ 45 ∷ 108 ∷ 101 ∷ 102 ∷ 116 ∷ []
as_str CommandId.pane_resize_right =
    112 ∷ 97 ∷ 110 ∷ 101 ∷ 46 ∷ 114 ∷ 101 ∷ 115 ∷ 105 ∷ 122 ∷ 101 ∷ 45 ∷ 114 ∷ 105 ∷ 103 ∷ 104 ∷ 116
    ∷ []
as_str CommandId.pane_resize_up =
    112 ∷ 97 ∷ 110 ∷ 101 ∷ 46 ∷ 114 ∷ 101 ∷ 115 ∷ 105 ∷ 122 ∷ 101 ∷ 45 ∷ 117 ∷ 112 ∷ []
as_str CommandId.pane_resize_down =
    112 ∷ 97 ∷ 110 ∷ 101 ∷ 46 ∷ 114 ∷ 101 ∷ 115 ∷ 105 ∷ 122 ∷ 101 ∷ 45 ∷ 100 ∷ 111 ∷ 119 ∷ 110 ∷ []
as_str CommandId.terminal_paste =
    116 ∷ 101 ∷ 114 ∷ 109 ∷ 105 ∷ 110 ∷ 97 ∷ 108 ∷ 46 ∷ 112 ∷ 97 ∷ 115 ∷ 116 ∷ 101 ∷ []
as_str CommandId.terminal_copy =
    116 ∷ 101 ∷ 114 ∷ 109 ∷ 105 ∷ 110 ∷ 97 ∷ 108 ∷ 46 ∷ 99 ∷ 111 ∷ 112 ∷ 121 ∷ []
as_str CommandId.terminal_clear_scrollback =
    116 ∷ 101 ∷ 114 ∷ 109 ∷ 105 ∷ 110 ∷ 97 ∷ 108 ∷ 46 ∷ 99 ∷ 108 ∷ 101 ∷ 97 ∷ 114 ∷ 45 ∷ 115 ∷ 99
    ∷ 114 ∷ 111 ∷ 108 ∷ 108 ∷ 98 ∷ 97 ∷ 99 ∷ 107 ∷ []
as_str CommandId.notification_jump_unread =
    110 ∷ 111 ∷ 116 ∷ 105 ∷ 102 ∷ 105 ∷ 99 ∷ 97 ∷ 116 ∷ 105 ∷ 111 ∷ 110 ∷ 46 ∷ 106 ∷ 117 ∷ 109 ∷ 112
    ∷ 45 ∷ 117 ∷ 110 ∷ 114 ∷ 101 ∷ 97 ∷ 100 ∷ []
as_str CommandId.terminal_resume_command =
    116 ∷ 101 ∷ 114 ∷ 109 ∷ 105 ∷ 110 ∷ 97 ∷ 108 ∷ 46 ∷ 114 ∷ 101 ∷ 115 ∷ 117 ∷ 109 ∷ 101 ∷ 45 ∷ 99
    ∷ 111 ∷ 109 ∷ 109 ∷ 97 ∷ 110 ∷ 100 ∷ []
as_str CommandId.app_settings =
    97 ∷ 112 ∷ 112 ∷ 46 ∷ 115 ∷ 101 ∷ 116 ∷ 116 ∷ 105 ∷ 110 ∷ 103 ∷ 115 ∷ []
as_str CommandId.app_toggle_sidebar =
    97 ∷ 112 ∷ 112 ∷ 46 ∷ 116 ∷ 111 ∷ 103 ∷ 103 ∷ 108 ∷ 101 ∷ 45 ∷ 115 ∷ 105 ∷ 100 ∷ 101 ∷ 98 ∷ 97
    ∷ 114 ∷ []
as_str CommandId.app_install_command_line_tool =
    97 ∷ 112 ∷ 112 ∷ 46 ∷ 105 ∷ 110 ∷ 115 ∷ 116 ∷ 97 ∷ 108 ∷ 108 ∷ 45 ∷ 99 ∷ 111 ∷ 109 ∷ 109 ∷ 97
    ∷ 110 ∷ 100 ∷ 45 ∷ 108 ∷ 105 ∷ 110 ∷ 101 ∷ 45 ∷ 116 ∷ 111 ∷ 111 ∷ 108 ∷ []
as_str CommandId.app_reload_kitty_config =
    97 ∷ 112 ∷ 112 ∷ 46 ∷ 114 ∷ 101 ∷ 108 ∷ 111 ∷ 97 ∷ 100 ∷ 45 ∷ 107 ∷ 105 ∷ 116 ∷ 116 ∷ 121 ∷ 45
    ∷ 99 ∷ 111 ∷ 110 ∷ 102 ∷ 105 ∷ 103 ∷ []
as_str CommandId.font_increase =
    102 ∷ 111 ∷ 110 ∷ 116 ∷ 46 ∷ 105 ∷ 110 ∷ 99 ∷ 114 ∷ 101 ∷ 97 ∷ 115 ∷ 101 ∷ []
as_str CommandId.font_decrease =
    102 ∷ 111 ∷ 110 ∷ 116 ∷ 46 ∷ 100 ∷ 101 ∷ 99 ∷ 114 ∷ 101 ∷ 97 ∷ 115 ∷ 101 ∷ []
as_str CommandId.font_reset = 102 ∷ 111 ∷ 110 ∷ 116 ∷ 46 ∷ 114 ∷ 101 ∷ 115 ∷ 101 ∷ 116 ∷ []
as_str CommandId.tab_close = 116 ∷ 97 ∷ 98 ∷ 46 ∷ 99 ∷ 108 ∷ 111 ∷ 115 ∷ 101 ∷ []
as_str CommandId.terminal_select_all =
    116 ∷ 101 ∷ 114 ∷ 109 ∷ 105 ∷ 110 ∷ 97 ∷ 108 ∷ 46 ∷ 115 ∷ 101 ∷ 108 ∷ 101 ∷ 99 ∷ 116 ∷ 45 ∷ 97
    ∷ 108 ∷ 108 ∷ []
as_str CommandId.terminal_find_next =
    116 ∷ 101 ∷ 114 ∷ 109 ∷ 105 ∷ 110 ∷ 97 ∷ 108 ∷ 46 ∷ 102 ∷ 105 ∷ 110 ∷ 100 ∷ 45 ∷ 110 ∷ 101 ∷ 120
    ∷ 116 ∷ []
as_str CommandId.terminal_find_previous =
    116 ∷ 101 ∷ 114 ∷ 109 ∷ 105 ∷ 110 ∷ 97 ∷ 108 ∷ 46 ∷ 102 ∷ 105 ∷ 110 ∷ 100 ∷ 45 ∷ 112 ∷ 114 ∷ 101
    ∷ 118 ∷ 105 ∷ 111 ∷ 117 ∷ 115 ∷ []
as_str CommandId.pane_zoom = 112 ∷ 97 ∷ 110 ∷ 101 ∷ 46 ∷ 122 ∷ 111 ∷ 111 ∷ 109 ∷ []
as_str CommandId.app_full_screen =
    97 ∷ 112 ∷ 112 ∷ 46 ∷ 102 ∷ 117 ∷ 108 ∷ 108 ∷ 45 ∷ 115 ∷ 99 ∷ 114 ∷ 101 ∷ 101 ∷ 110 ∷ []
as_str CommandId.app_quit = 97 ∷ 112 ∷ 112 ∷ 46 ∷ 113 ∷ 117 ∷ 105 ∷ 116 ∷ []
as_str CommandId.app_help = 97 ∷ 112 ∷ 112 ∷ 46 ∷ 104 ∷ 101 ∷ 108 ∷ 112 ∷ []
as_str CommandId.app_about = 97 ∷ 112 ∷ 112 ∷ 46 ∷ 97 ∷ 98 ∷ 111 ∷ 117 ∷ 116 ∷ []
as_str CommandId.app_report_issue =
    97 ∷ 112 ∷ 112 ∷ 46 ∷ 114 ∷ 101 ∷ 112 ∷ 111 ∷ 114 ∷ 116 ∷ 45 ∷ 105 ∷ 115 ∷ 115 ∷ 117 ∷ 101 ∷ []

unfoldable pub action : CommandId → SemanticAction
action CommandId.terminal_new_tab = SemanticAction.new_terminal_tab
action CommandId.browser_new_pane = SemanticAction.new_browser_pane
action CommandId.pane_split_right = SemanticAction.split SplitAxis.left_right
action CommandId.pane_split_down = SemanticAction.split SplitAxis.top_bottom
action CommandId.terminal_find = SemanticAction.find_in_terminal
action CommandId.workspace_new = SemanticAction.new_workspace
action CommandId.group_new = SemanticAction.new_group
action CommandId.terminal_next_tab = SemanticAction.cycle_tab (pos 1)
action CommandId.terminal_previous_tab = SemanticAction.cycle_tab (negsuc 0)
action CommandId.group_next = SemanticAction.cycle_group (pos 1)
action CommandId.group_previous = SemanticAction.cycle_group (negsuc 0)
action CommandId.pane_close = SemanticAction.close_pane
action CommandId.group_close = SemanticAction.close_group
action CommandId.workspace_close = SemanticAction.close_workspace
action CommandId.workspace_rename = SemanticAction.rename_workspace
action CommandId.terminal_rename_tab = SemanticAction.rename_tab
action CommandId.group_rename = SemanticAction.rename_group
action CommandId.pane_focus_next = SemanticAction.cycle_pane_focus (pos 1)
action CommandId.pane_focus_previous = SemanticAction.cycle_pane_focus (negsuc 0)
action CommandId.pane_focus_left = SemanticAction.move_pane_focus Direction.left
action CommandId.pane_focus_right = SemanticAction.move_pane_focus Direction.right
action CommandId.pane_focus_up = SemanticAction.move_pane_focus Direction.up
action CommandId.pane_focus_down = SemanticAction.move_pane_focus Direction.down
action CommandId.pane_resize_left = SemanticAction.resize_pane Direction.left
action CommandId.pane_resize_right = SemanticAction.resize_pane Direction.right
action CommandId.pane_resize_up = SemanticAction.resize_pane Direction.up
action CommandId.pane_resize_down = SemanticAction.resize_pane Direction.down
action CommandId.terminal_paste = SemanticAction.paste
action CommandId.terminal_copy = SemanticAction.copy
action CommandId.terminal_clear_scrollback = SemanticAction.clear_scrollback
action CommandId.notification_jump_unread = SemanticAction.jump_to_unread
action CommandId.terminal_resume_command = SemanticAction.set_resume_command
action CommandId.app_settings = SemanticAction.open_settings
action CommandId.app_toggle_sidebar = SemanticAction.toggle_sidebar
action CommandId.app_install_command_line_tool = SemanticAction.install_command_line_tool
action CommandId.app_reload_kitty_config = SemanticAction.reload_kitty_config
action CommandId.font_increase = SemanticAction.font_delta (pos 2)
action CommandId.font_decrease = SemanticAction.font_delta (negsuc 1)
action CommandId.font_reset = SemanticAction.font_reset
action CommandId.tab_close = SemanticAction.close_tab
action CommandId.terminal_select_all = SemanticAction.select_all
action CommandId.terminal_find_next = SemanticAction.find_next
action CommandId.terminal_find_previous = SemanticAction.find_previous
action CommandId.pane_zoom = SemanticAction.zoom_pane
action CommandId.app_full_screen = SemanticAction.full_screen
action CommandId.app_quit = SemanticAction.quit
action CommandId.app_help = SemanticAction.help
action CommandId.app_about = SemanticAction.about
action CommandId.app_report_issue = SemanticAction.report_issue

-- The arms of the `match`, in order.
unfoldable pub find : Text → List CommandId → Option CommandId
unfolding as_str
find value [] = none
find value (c ∷ cs) =
    let rest = find value cs in if same_text value (as_str c) then some c else rest

-- `CommandId::from_str`, with `none` for `Err(())`.
unfoldable pub from_str : Text → Option CommandId
unfolding find
from_str value =
    if length value == 0 || ltb 128 (length value) || elem value 0 then none else find value all
