-- ===== src/Control/Method.antt =====
-- `ControlMethod` of kitmux-linux/rust/model/src/control.rs: the methods of the control protocol.
use kitmux_linux.Base.{Option, none, some, List, [], ◌∷◌, if◌then◌else◌}
use kitmux_linux.Text.{Text, codes, same_text}
pub mod Roundtrip

pub data ControlMethod : Type 0 where
  ping tree identify capabilities workspace_create group_create tab_create workspace_select
        group_select tab_select workspace_rename group_rename tab_rename pane_rename workspace_move
        group_move tab_move pane_move workspace_close group_close tab_close pane_close pane_split
        pane_focus pane_send pane_send_key pane_read_screen pane_notify event_list agent_start
        agent_list agent_get agent_update agent_focus agent_resume todo_create todo_list todo_check
        todo_reopen todo_delete todo_export ssh_profile_list ssh_connect ssh_reconnect :
      ControlMethod

abbrev pub all : List ControlMethod
all =
    ControlMethod.ping ∷ ControlMethod.tree ∷ ControlMethod.identify ∷ ControlMethod.capabilities
    ∷ ControlMethod.workspace_create ∷ ControlMethod.group_create ∷ ControlMethod.tab_create
    ∷ ControlMethod.workspace_select ∷ ControlMethod.group_select ∷ ControlMethod.tab_select
    ∷ ControlMethod.workspace_rename ∷ ControlMethod.group_rename ∷ ControlMethod.tab_rename
    ∷ ControlMethod.pane_rename ∷ ControlMethod.workspace_move ∷ ControlMethod.group_move
    ∷ ControlMethod.tab_move ∷ ControlMethod.pane_move ∷ ControlMethod.workspace_close
    ∷ ControlMethod.group_close ∷ ControlMethod.tab_close ∷ ControlMethod.pane_close
    ∷ ControlMethod.pane_split ∷ ControlMethod.pane_focus ∷ ControlMethod.pane_send
    ∷ ControlMethod.pane_send_key ∷ ControlMethod.pane_read_screen ∷ ControlMethod.pane_notify
    ∷ ControlMethod.event_list ∷ ControlMethod.agent_start ∷ ControlMethod.agent_list
    ∷ ControlMethod.agent_get ∷ ControlMethod.agent_update ∷ ControlMethod.agent_focus
    ∷ ControlMethod.agent_resume ∷ ControlMethod.todo_create ∷ ControlMethod.todo_list
    ∷ ControlMethod.todo_check ∷ ControlMethod.todo_reopen ∷ ControlMethod.todo_delete
    ∷ ControlMethod.todo_export ∷ ControlMethod.ssh_profile_list ∷ ControlMethod.ssh_connect
    ∷ ControlMethod.ssh_reconnect ∷ []

unfoldable pub as_str : ControlMethod → Text
as_str ControlMethod.ping = codes "ping"
as_str ControlMethod.tree = codes "tree"
as_str ControlMethod.identify = codes "identify"
as_str ControlMethod.capabilities = codes "capabilities"
as_str ControlMethod.workspace_create = codes "workspace.create"
as_str ControlMethod.group_create = codes "group.create"
as_str ControlMethod.tab_create = codes "tab.create"
as_str ControlMethod.workspace_select = codes "workspace.select"
as_str ControlMethod.group_select = codes "group.select"
as_str ControlMethod.tab_select = codes "tab.select"
as_str ControlMethod.workspace_rename = codes "workspace.rename"
as_str ControlMethod.group_rename = codes "group.rename"
as_str ControlMethod.tab_rename = codes "tab.rename"
as_str ControlMethod.pane_rename = codes "pane.rename"
as_str ControlMethod.workspace_move = codes "workspace.move"
as_str ControlMethod.group_move = codes "group.move"
as_str ControlMethod.tab_move = codes "tab.move"
as_str ControlMethod.pane_move = codes "pane.move"
as_str ControlMethod.workspace_close = codes "workspace.close"
as_str ControlMethod.group_close = codes "group.close"
as_str ControlMethod.tab_close = codes "tab.close"
as_str ControlMethod.pane_close = codes "pane.close"
as_str ControlMethod.pane_split = codes "pane.split"
as_str ControlMethod.pane_focus = codes "pane.focus"
as_str ControlMethod.pane_send = codes "pane.send"
as_str ControlMethod.pane_send_key = codes "pane.send_key"
as_str ControlMethod.pane_read_screen = codes "pane.read_screen"
as_str ControlMethod.pane_notify = codes "pane.notify"
as_str ControlMethod.event_list = codes "event.list"
as_str ControlMethod.agent_start = codes "agent.start"
as_str ControlMethod.agent_list = codes "agent.list"
as_str ControlMethod.agent_get = codes "agent.get"
as_str ControlMethod.agent_update = codes "agent.update"
as_str ControlMethod.agent_focus = codes "agent.focus"
as_str ControlMethod.agent_resume = codes "agent.resume"
as_str ControlMethod.todo_create = codes "todo.create"
as_str ControlMethod.todo_list = codes "todo.list"
as_str ControlMethod.todo_check = codes "todo.check"
as_str ControlMethod.todo_reopen = codes "todo.reopen"
as_str ControlMethod.todo_delete = codes "todo.delete"
as_str ControlMethod.todo_export = codes "todo.export"
as_str ControlMethod.ssh_profile_list = codes "ssh.profile.list"
as_str ControlMethod.ssh_connect = codes "ssh.connect"
as_str ControlMethod.ssh_reconnect = codes "ssh.reconnect"

-- The arms of `from_str`, in order.
unfoldable pub find_method : Text → List ControlMethod → Option ControlMethod
unfolding same_text as_str
find_method value [] = none
find_method value (m ∷ ms) = if same_text value (as_str m) then some m else find_method value ms

unfoldable pub method_from_str : Text → Option ControlMethod
unfolding find_method
method_from_str value = find_method value all
