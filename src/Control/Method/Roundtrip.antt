-- ===== src/Control/Method/Roundtrip.antt =====
-- The names of the methods of the control protocol.
use kitmux_linux.Base.{
  ◌≡◌, refl, inl, inr, ◌↔◌, some, List, [], ◌∷◌, arith, Bool-cases, false, true, leb,
}
use kitmux_linux.Text.{Text, same_text, is_empty, byte_len, char_len, any, is_control}
use kitmux_linux.Text.Laws.{same_text_sound}
use kitmux_linux.Control.Method.{ControlMethod, all, as_str, find_method, method_from_str}

pub method_from_str-as_str : (m : ControlMethod) → method_from_str (as_str m) ≡ some m
unfolding method_from_str find_method as_str same_text
method_from_str-as_str ControlMethod.ping = refl
method_from_str-as_str ControlMethod.tree = refl
method_from_str-as_str ControlMethod.identify = refl
method_from_str-as_str ControlMethod.capabilities = refl
method_from_str-as_str ControlMethod.workspace_create = refl
method_from_str-as_str ControlMethod.group_create = refl
method_from_str-as_str ControlMethod.tab_create = refl
method_from_str-as_str ControlMethod.workspace_select = refl
method_from_str-as_str ControlMethod.group_select = refl
method_from_str-as_str ControlMethod.tab_select = refl
method_from_str-as_str ControlMethod.workspace_rename = refl
method_from_str-as_str ControlMethod.group_rename = refl
method_from_str-as_str ControlMethod.tab_rename = refl
method_from_str-as_str ControlMethod.pane_rename = refl
method_from_str-as_str ControlMethod.workspace_move = refl
method_from_str-as_str ControlMethod.group_move = refl
method_from_str-as_str ControlMethod.tab_move = refl
method_from_str-as_str ControlMethod.pane_move = refl
method_from_str-as_str ControlMethod.workspace_close = refl
method_from_str-as_str ControlMethod.group_close = refl
method_from_str-as_str ControlMethod.tab_close = refl
method_from_str-as_str ControlMethod.pane_close = refl
method_from_str-as_str ControlMethod.pane_split = refl
method_from_str-as_str ControlMethod.pane_focus = refl
method_from_str-as_str ControlMethod.pane_send = refl
method_from_str-as_str ControlMethod.pane_send_key = refl
method_from_str-as_str ControlMethod.pane_read_screen = refl
method_from_str-as_str ControlMethod.pane_notify = refl
method_from_str-as_str ControlMethod.event_list = refl
method_from_str-as_str ControlMethod.agent_start = refl
method_from_str-as_str ControlMethod.agent_list = refl
method_from_str-as_str ControlMethod.agent_get = refl
method_from_str-as_str ControlMethod.agent_update = refl
method_from_str-as_str ControlMethod.agent_focus = refl
method_from_str-as_str ControlMethod.agent_resume = refl
method_from_str-as_str ControlMethod.todo_create = refl
method_from_str-as_str ControlMethod.todo_list = refl
method_from_str-as_str ControlMethod.todo_check = refl
method_from_str-as_str ControlMethod.todo_reopen = refl
method_from_str-as_str ControlMethod.todo_delete = refl
method_from_str-as_str ControlMethod.todo_export = refl
method_from_str-as_str ControlMethod.ssh_profile_list = refl
method_from_str-as_str ControlMethod.ssh_connect = refl
method_from_str-as_str ControlMethod.ssh_reconnect = refl

find_method_sound :
    (value : Text) (ms : List ControlMethod) (m : ControlMethod)
    → find_method value ms ≡ some m
    → value ≡ as_str m
unfolding find_method
find_method_sound value [] m h = absurd (ground arith)
find_method_sound value (x ∷ xs) m h = elim (Bool-cases (same_text value (as_str x))) [
  | inl e ↦ let ex : x ≡ m = ground arith in rw (← ex) (same_text_sound value (as_str x) e)
  | inr e ↦ find_method_sound value xs m (ground arith)
]

pub method_from_str_iff :
    (value : Text) (m : ControlMethod) → (method_from_str value ≡ some m) ↔ (value ≡ as_str m)
unfolding method_from_str
method_from_str_iff value m =
    ((λ h. find_method_sound value all m (ground arith)), λ e. rw e (method_from_str-as_str m))

-- The names are short and printable.
pub as_str_bounds :
    (m : ControlMethod)
    → (is_empty (as_str m) ≡ false)
      × (leb (byte_len (as_str m)) 128 ≡ true)
      × (any is_control (as_str m) ≡ false)
unfolding as_str is_empty byte_len char_len any is_control
as_str_bounds ControlMethod.ping = (refl, refl, refl)
as_str_bounds ControlMethod.tree = (refl, refl, refl)
as_str_bounds ControlMethod.identify = (refl, refl, refl)
as_str_bounds ControlMethod.capabilities = (refl, refl, refl)
as_str_bounds ControlMethod.workspace_create = (refl, refl, refl)
as_str_bounds ControlMethod.group_create = (refl, refl, refl)
as_str_bounds ControlMethod.tab_create = (refl, refl, refl)
as_str_bounds ControlMethod.workspace_select = (refl, refl, refl)
as_str_bounds ControlMethod.group_select = (refl, refl, refl)
as_str_bounds ControlMethod.tab_select = (refl, refl, refl)
as_str_bounds ControlMethod.workspace_rename = (refl, refl, refl)
as_str_bounds ControlMethod.group_rename = (refl, refl, refl)
as_str_bounds ControlMethod.tab_rename = (refl, refl, refl)
as_str_bounds ControlMethod.pane_rename = (refl, refl, refl)
as_str_bounds ControlMethod.workspace_move = (refl, refl, refl)
as_str_bounds ControlMethod.group_move = (refl, refl, refl)
as_str_bounds ControlMethod.tab_move = (refl, refl, refl)
as_str_bounds ControlMethod.pane_move = (refl, refl, refl)
as_str_bounds ControlMethod.workspace_close = (refl, refl, refl)
as_str_bounds ControlMethod.group_close = (refl, refl, refl)
as_str_bounds ControlMethod.tab_close = (refl, refl, refl)
as_str_bounds ControlMethod.pane_close = (refl, refl, refl)
as_str_bounds ControlMethod.pane_split = (refl, refl, refl)
as_str_bounds ControlMethod.pane_focus = (refl, refl, refl)
as_str_bounds ControlMethod.pane_send = (refl, refl, refl)
as_str_bounds ControlMethod.pane_send_key = (refl, refl, refl)
as_str_bounds ControlMethod.pane_read_screen = (refl, refl, refl)
as_str_bounds ControlMethod.pane_notify = (refl, refl, refl)
as_str_bounds ControlMethod.event_list = (refl, refl, refl)
as_str_bounds ControlMethod.agent_start = (refl, refl, refl)
as_str_bounds ControlMethod.agent_list = (refl, refl, refl)
as_str_bounds ControlMethod.agent_get = (refl, refl, refl)
as_str_bounds ControlMethod.agent_update = (refl, refl, refl)
as_str_bounds ControlMethod.agent_focus = (refl, refl, refl)
as_str_bounds ControlMethod.agent_resume = (refl, refl, refl)
as_str_bounds ControlMethod.todo_create = (refl, refl, refl)
as_str_bounds ControlMethod.todo_list = (refl, refl, refl)
as_str_bounds ControlMethod.todo_check = (refl, refl, refl)
as_str_bounds ControlMethod.todo_reopen = (refl, refl, refl)
as_str_bounds ControlMethod.todo_delete = (refl, refl, refl)
as_str_bounds ControlMethod.todo_export = (refl, refl, refl)
as_str_bounds ControlMethod.ssh_profile_list = (refl, refl, refl)
as_str_bounds ControlMethod.ssh_connect = (refl, refl, refl)
as_str_bounds ControlMethod.ssh_reconnect = (refl, refl, refl)
