-- ===== src/Shortcuts.antt =====
-- The shortcuts of kitmux-linux/rust/model/src/interaction.rs: chords, the default bindings, and the
-- map in which a chord that is bound twice does nothing. A character is its code.
pub mod Conflicts
use mathlib.Core.Option
use kitmux_linux.Base.{
  ℕ, suc, ◌+◌, ◌-◌, Bool, true, false, not, ◌&&◌, ◌||◌, Option, none, some, List, [], ◌∷◌, ◌==◌,
  leb, ltb, if◌then◌else◌,
}
use kitmux_linux.Commands.{CommandId}

pub record ShortcutChord : Type 0 where
  pub key : ℕ
  pub control : Bool
  pub shift : Bool
  pub alt : Bool
  pub super_key : Bool

pub data NavigationTarget : Type 0 where
  workspace terminal_tab : ℕ → NavigationTarget

pub data ShortcutAction : Type 0 where
  copy paste search command_palette font_larger font_smaller : ShortcutAction
  font_reset clear_scrollback : ShortcutAction
  navigation : CommandId → ShortcutAction
  select : NavigationTarget → ShortcutAction

abbrev modified : ℕ → Bool → Bool → Bool → Bool → ShortcutChord
modified key control shift alt super_key = record {
  key = key;
  control = control;
  shift = shift;
  alt = alt;
  super_key = super_key;
}

-- The closure `chord`.
abbrev pub control_chord : ℕ → Bool → ShortcutChord
control_chord key shift = modified key true shift false false

unfoldable pub linux_default_bindings : List (ShortcutChord × ShortcutAction)
linux_default_bindings =
    (control_chord 99 true, copy)
    ∷ (control_chord 118 true, paste)
    ∷ (control_chord 102 true, search)
    ∷ (control_chord 112 true, command_palette)
    ∷ (control_chord 43 false, font_larger)
    ∷ (control_chord 45 false, font_smaller)
    ∷ (control_chord 48 false, font_reset)
    ∷ (control_chord 108 true, clear_scrollback)
    ∷ (modified 110 false false false true, navigation CommandId.workspace_new)
    ∷ (modified 116 false false false true, navigation CommandId.terminal_new_tab)
    ∷ (modified 116 false false true true, navigation CommandId.group_new)
    ∷ (modified 119 false false false true, navigation CommandId.pane_close)
    ∷ (modified 100 false false false true, navigation CommandId.pane_split_right)
    ∷ (modified 100 false true false true, navigation CommandId.pane_split_down)
    ∷ (modified 112 false false false true, navigation CommandId.pane_focus_next)
    ∷ (modified 112 false true false true, navigation CommandId.pane_focus_previous)
    ∷ (modified 104 false false false true, navigation CommandId.pane_focus_left)
    ∷ (modified 108 false false false true, navigation CommandId.pane_focus_right)
    ∷ (modified 107 false false false true, navigation CommandId.pane_focus_up)
    ∷ (modified 106 false false false true, navigation CommandId.pane_focus_down)
    ∷ (modified 104 false true false true, navigation CommandId.pane_resize_left)
    ∷ (modified 108 false true false true, navigation CommandId.pane_resize_right)
    ∷ (modified 107 false true false true, navigation CommandId.pane_resize_up)
    ∷ (modified 106 false true false true, navigation CommandId.pane_resize_down)
    ∷ (modified 91 false false true false, navigation CommandId.terminal_previous_tab)
    ∷ (modified 93 false false true false, navigation CommandId.terminal_next_tab)
    ∷ (modified 91 false true false true, navigation CommandId.group_previous)
    ∷ (modified 93 false true false true, navigation CommandId.group_next)
    ∷ []

unfoldable pub same_bool : Bool → Bool → Bool
same_bool true b = b
same_bool false b = not b

unfoldable pub same_chord : ShortcutChord → ShortcutChord → Bool
unfolding same_bool
same_chord a b =
    a.key == b.key
    && same_bool a.control b.control
    && same_bool a.shift b.shift
    && same_bool a.alt b.alt
    && same_bool a.super_key b.super_key

-- `ShortcutMap`: a chord that stands for no action is there with `none`.
module _ {A : Type 0} where
  -- `entry(chord).and_modify(|value| *value = None).or_insert(Some(action))`
  unfoldable pub enter :
      ShortcutChord → A → List (ShortcutChord × Option A) → List (ShortcutChord × Option A)
  enter chord a [] = (chord, some a) ∷ []
  enter chord a ((c, v) ∷ m) =
      let rest = enter chord a m in if same_chord c chord then (c, none) ∷ m else (c, v) ∷ rest

  -- The loop of `from_bindings`.
  unfoldable pub enter_all :
      List (ShortcutChord × A) → List (ShortcutChord × Option A) → List (ShortcutChord × Option A)
  unfolding enter
  enter_all [] m = m
  enter_all ((chord, a) ∷ rest) m = enter_all rest (enter chord a m)

  unfoldable pub from_bindings : List (ShortcutChord × A) → List (ShortcutChord × Option A)
  unfolding enter_all
  from_bindings bindings = enter_all bindings []

  unfoldable pub lookup : List (ShortcutChord × Option A) → ShortcutChord → Option (Option A)
  lookup [] chord = none
  lookup ((c, v) ∷ m) chord =
      let rest = lookup m chord in if same_chord c chord then some v else rest

  abbrev pub flatten : Option (Option A) → Option A
  flatten none = none
  flatten (some v) = v

  unfoldable pub resolve : List (ShortcutChord × Option A) → ShortcutChord → Option A
  unfolding lookup
  resolve m chord = flatten (lookup m chord)

unfoldable pub linux_defaults : List (ShortcutChord × Option ShortcutAction)
unfolding from_bindings linux_default_bindings
linux_defaults = from_bindings linux_default_bindings

unfoldable pub shortcut_action : CommandId → Option ShortcutAction
shortcut_action CommandId.terminal_copy = some copy
shortcut_action CommandId.terminal_paste = some paste
shortcut_action CommandId.terminal_find = some search
shortcut_action CommandId.terminal_clear_scrollback = some clear_scrollback
shortcut_action CommandId.font_increase = some font_larger
shortcut_action CommandId.font_decrease = some font_smaller
shortcut_action CommandId.font_reset = some font_reset
shortcut_action CommandId.workspace_new = some (navigation CommandId.workspace_new)
shortcut_action CommandId.group_new = some (navigation CommandId.group_new)
shortcut_action CommandId.terminal_new_tab = some (navigation CommandId.terminal_new_tab)
shortcut_action CommandId.terminal_next_tab = some (navigation CommandId.terminal_next_tab)
shortcut_action CommandId.terminal_previous_tab = some (navigation CommandId.terminal_previous_tab)
shortcut_action CommandId.group_next = some (navigation CommandId.group_next)
shortcut_action CommandId.group_previous = some (navigation CommandId.group_previous)
shortcut_action CommandId.pane_close = some (navigation CommandId.pane_close)
shortcut_action CommandId.group_close = some (navigation CommandId.group_close)
shortcut_action CommandId.workspace_close = some (navigation CommandId.workspace_close)
shortcut_action CommandId.workspace_rename = some (navigation CommandId.workspace_rename)
shortcut_action CommandId.terminal_rename_tab = some (navigation CommandId.terminal_rename_tab)
shortcut_action CommandId.group_rename = some (navigation CommandId.group_rename)
shortcut_action CommandId.pane_split_right = some (navigation CommandId.pane_split_right)
shortcut_action CommandId.pane_split_down = some (navigation CommandId.pane_split_down)
shortcut_action CommandId.pane_focus_next = some (navigation CommandId.pane_focus_next)
shortcut_action CommandId.pane_focus_previous = some (navigation CommandId.pane_focus_previous)
shortcut_action CommandId.pane_focus_left = some (navigation CommandId.pane_focus_left)
shortcut_action CommandId.pane_focus_right = some (navigation CommandId.pane_focus_right)
shortcut_action CommandId.pane_focus_up = some (navigation CommandId.pane_focus_up)
shortcut_action CommandId.pane_focus_down = some (navigation CommandId.pane_focus_down)
shortcut_action CommandId.pane_resize_left = some (navigation CommandId.pane_resize_left)
shortcut_action CommandId.pane_resize_right = some (navigation CommandId.pane_resize_right)
shortcut_action CommandId.pane_resize_up = some (navigation CommandId.pane_resize_up)
shortcut_action CommandId.pane_resize_down = some (navigation CommandId.pane_resize_down)
shortcut_action _ = none

-- `to_digit(10)`
unfoldable pub to_digit : ℕ → Option ℕ
to_digit key = if leb 48 key && leb key 57 then some (key - 48) else none

unfoldable pub namespaced_number_target : ShortcutChord → Option NavigationTarget
unfolding to_digit
namespaced_number_target chord = elim (to_digit chord.key) [
  | none ↦ none
  | some index ↦
      if not (leb 1 index && leb index 9) || chord.control || chord.shift
      then none
      else if not chord.alt && chord.super_key
      then some (NavigationTarget.workspace (index - 1))
      else if chord.alt && not chord.super_key
      then some (NavigationTarget.terminal_tab (index - 1))
      else none
]
