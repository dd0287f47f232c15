-- ===== src/Tests/Sessions.antt =====
-- The theorems on saved sessions, on paths and on the command line at concrete data.
use mathlib.Core.Option
use kitmux_linux.Base.{
  ℕ, ◌≡◌, ◌≤◌, ◌↔◌, refl, inl, Bool, true, false, none, some, List, [], ◌∷◌, ◌+◌, elem, Member,
  Distinct, map, arith,
}
use kitmux_linux.Base.Int.{pos, negsuc}
use kitmux_linux.Base.Result.{ok}
use kitmux_linux.Base.Unique.{insert_all}
use kitmux_linux.Ids.{PaneId, WorkspaceId}
use kitmux_linux.Text.{
  Text, codes, trim, trim_start, is_whitespace, is_empty, byte_len, char_len, any, is_control,
  same_text, starts_with,
}
use kitmux_linux.Control.Method.{method_from_str, find_method, as_str}
use kitmux_linux.Control.Codec.Bounds.{IsRequest}
use kitmux_linux.Resume.{
  ResumeCommandIdentity, ResumeCommandCurrentState, ResumeCommandSelectionPolicy, row_id,
  valid_command, new_policy, set_selected, executable_rows,
}
use kitmux_linux.Resume.States.{MayRun}
use kitmux_linux.Resume.Policy.{Reachable, executable_rows_iff, executable_rows-Distinct}
use kitmux_linux.Resume.Command.{valid_command_lem}
use kitmux_linux.Platform.{
  Environment, UnixSocketAddress, resolve_control_socket, resolve_xdg, xdg_home, variable,
  is_absolute, absolute_or_none, current_user_home, resolve_address, new_address, path_bytes,
  fallback_path, decimal, digits, join,
}
use kitmux_linux.Platform.Sockets.{IsSocketPath, resolve_control_socket_lem}
use kitmux_linux.Cli.{CliInvocation, parse_cli, options}
use kitmux_linux.Cli.Arguments.{close_params, one_param, insert_param, accepts, text_less}
use kitmux_linux.Cli.Arguments
use kitmux_linux.Cli.Command.{parse_command, parse_hierarchy, hierarchy, request}
use kitmux_linux.Cli.Invocation.{parse_cli_lem}
use kitmux_linux.Split.{
  pane_ids, collect_pane_ids, has_unique_ids_and_valid_ratios, visit, valid_ratio,
}
use kitmux_linux.Snapshot.{
  Serde, decode_snapshot, encode_snapshot, validate_snapshot, validate_workspaces,
  validate_workspace, validate_groups, validate_group, validate_tabs, validate_tab, repair_tab,
  repair_font_size, at_least,
}
use kitmux_linux.Snapshot.Data.{AppSnapshot, PaneDetail, PaneContentKind}
use kitmux_linux.Snapshot.Details.{clamp_index, repair_detail}
use kitmux_linux.Snapshot.Valid.{
  IsSnapshot, IsWritten, decode_snapshot_sound, encode_snapshot_sound,
}
use kitmux_linux.Snapshot.Repaired.{repair_detail_idem}
use kitmux_linux.Tests.Samples.{tenths, two_panes}

abbrev row : ResumeCommandIdentity
row = record { pane_id = 1; surface_id = 10; command = codes "ls"; cwd = none }

abbrev policy : ResumeCommandSelectionPolicy
policy = record { displayed_rows = row ∷ []; selected = 10 ∷ [] }

abbrev live : ResumeCommandCurrentState
live = record {
  pane_id = 1;
  surface_id = 10;
  command = some (codes " ls ");
  cwd = none;
  is_eligible = true;
}

executable_rows_iff_example :
    Member row (executable_rows policy (live ∷ []))
    ↔ (Member row (row ∷ []) × MayRun policy (live ∷ []) row)
executable_rows_iff_example = executable_rows_iff policy (live ∷ []) row

executable_rows-Distinct_example :
    Distinct (
      map row_id (executable_rows (set_selected (new_policy (row ∷ row ∷ [])) 10 true) (live ∷ [])))
executable_rows-Distinct_example =
    executable_rows-Distinct (set_selected (new_policy (row ∷ row ∷ [])) 10 true) (live ∷ []) (
      Reachable.selecting (new_policy (row ∷ row ∷ [])) 10 true
        (Reachable.started (row ∷ row ∷ [])))

trimmed_ls : valid_command (codes " ls ") ≡ some (codes "ls")
unfolding valid_command trim trim_start is_whitespace is_empty byte_len char_len any is_control
trimmed_ls = refl

valid_command_lem_example :
    (trim (codes "ls") ≡ codes "ls")
    × (is_empty (codes "ls") ≡ false)
    × (byte_len (codes "ls") ≤ 2048)
    × (any is_control (codes "ls") ≡ false)
    × (valid_command (codes "ls") ≡ some (codes "ls"))
valid_command_lem_example = valid_command_lem (codes " ls ") (codes "ls") trimmed_ls

abbrev nothing_set : Environment
nothing_set key = none

unset : (key : Text) → variable nothing_set key ≡ none
unfolding variable Option.bind
unset key = refl

resolve_control_socket_lem_example :
    (address : UnixSocketAddress) × (resolve_control_socket
        (some (codes "/home/u"))
        nothing_set
        1000
      ≡ ok address)
    × IsSocketPath address.path
resolve_control_socket_lem_example =
    resolve_control_socket_lem (some (codes "/home/u")) nothing_set 1000
      (λ key value h. absurd (ground (arith, h))) (inl (unset (codes "XDG_CONFIG_HOME")))
      (inl (unset (codes "XDG_DATA_HOME"))) (inl (unset (codes "XDG_STATE_HOME")))
      (inl (unset (codes "XDG_CACHE_HOME"))) (unset (codes "KITMUX_SOCKET_PATH"))

abbrev no_uuid : Text → Bool
no_uuid t = false

abbrev invocation : CliInvocation ℕ
invocation = record {
  json = true;
  socket = record { path = codes "/run/s" };
  request = record {
    version = pos 1;
    id = codes "cli-42";
    method = codes "tab.close";
    params = (codes "force", codes "true") ∷ (codes "id", codes "7") ∷ [];
    context = none;
  };
}

abbrev words : List Text
words =
    codes "--json"
    ∷ codes "--socket"
    ∷ codes "/run/s"
    ∷ codes "tab"
    ∷ codes "close"
    ∷ codes "7"
    ∷ codes "--force"
    ∷ []

cli_runs : parse_cli 42 no_uuid none 1000 words nothing_set ≡ ok invocation
unfolding parse_cli options parse_command parse_hierarchy hierarchy request close_params one_param
    insert_param accepts Arguments.insert text_less new_address path_bytes resolve_control_socket
    resolve_xdg xdg_home variable is_absolute absolute_or_none current_user_home resolve_address
    fallback_path decimal digits join method_from_str find_method as_str same_text byte_len char_len
    is_empty any is_control starts_with Option.bind
cli_runs = refl

parse_cli_lem_example : IsSocketPath (codes "/run/s") × IsRequest invocation.request
parse_cli_lem_example =
    parse_cli_lem 42 no_uuid none 1000 words nothing_set invocation cli_runs (omega arith)

-- A session whose focus and indices are out of range.
abbrev saved : AppSnapshot ℕ
saved = record {
  version = pos 0;
  active_workspace_index = negsuc 4;
  created_workspace_count = pos 0;
  workspaces =
      record {
        id = none;
        name = codes "w";
        active_tab_group_index = pos 9;
        created_group_count = pos 0;
        tab_groups =
            record {
              name = codes "g";
              active_terminal_tab_index = pos 3;
              terminal_tabs =
                  record {
                    focused_pane_id = 5;
                    root = two_panes;
                    custom_title = some (codes " ");
                    pane_details = none;
                  }
                  ∷ [];
            }
            ∷ [];
        color_index = none;
      }
      ∷ [];
  font_size = some 9;
}

abbrev repaired : AppSnapshot ℕ
repaired = record {
  version = pos 1;
  active_workspace_index = pos 0;
  created_workspace_count = pos 1;
  workspaces =
      record {
        id = some 70;
        name = codes "w";
        active_tab_group_index = pos 0;
        created_group_count = pos 1;
        tab_groups =
            record {
              name = codes "g";
              active_terminal_tab_index = pos 0;
              terminal_tabs =
                  record {
                    focused_pane_id = 1;
                    root = two_panes;
                    custom_title = none;
                    pane_details = none;
                  }
                  ∷ [];
            }
            ∷ [];
        color_index = none;
      }
      ∷ [];
  font_size = none;
}

abbrev one_file : Serde ℕ ℕ
one_file = record {
  from_slice = λ bytes. some 0;
  version_of = λ value. some (pos 1);
  from_value = λ value. some saved;
  to_vec_pretty = λ snapshot. some (123 ∷ 125 ∷ []);
}

abbrev id_text : PaneId → Text
id_text id = (48 + id) ∷ []

abbrev new_ids : ℕ → WorkspaceId
new_ids n = 70 + n

decode_runs : decode_snapshot id_text new_ids 40 50 one_file (123 ∷ []) ≡ ok repaired
unfolding decode_snapshot validate_snapshot validate_workspaces validate_workspace validate_groups
    validate_group validate_tabs validate_tab repair_tab repair_font_size at_least clamp_index
    insert_all elem pane_ids collect_pane_ids has_unique_ids_and_valid_ratios visit valid_ratio trim
    trim_start is_whitespace is_empty Option.bind
decode_runs = refl

decode_snapshot_sound_example : IsSnapshot repaired
decode_snapshot_sound_example =
    decode_snapshot_sound id_text new_ids 40 50 one_file (123 ∷ []) repaired decode_runs

encode_runs : encode_snapshot id_text new_ids 40 50 one_file saved ≡ ok (123 ∷ 125 ∷ [])
unfolding encode_snapshot validate_snapshot validate_workspaces validate_workspace validate_groups
    validate_group validate_tabs validate_tab repair_tab repair_font_size at_least clamp_index
    insert_all elem pane_ids collect_pane_ids has_unique_ids_and_valid_ratios visit valid_ratio trim
    trim_start is_whitespace is_empty Option.bind
encode_runs = refl

encode_snapshot_sound_example : IsWritten id_text new_ids 40 50 one_file (123 ∷ 125 ∷ [])
encode_snapshot_sound_example =
    encode_snapshot_sound id_text new_ids 40 50 one_file saved (123 ∷ 125 ∷ []) encode_runs

abbrev detail : PaneDetail
detail = record {
  cwd = some (codes "relative");
  resume_command = some (codes " ls ");
  kind = some PaneContentKind.terminal;
  url = some (codes "https://a");
  ssh_profile_id = none;
  surfaces = some [];
  active_surface_index = some (pos 3);
}

repair_detail_idem_example : repair_detail (repair_detail detail) ≡ repair_detail detail
repair_detail_idem_example = repair_detail_idem detail
