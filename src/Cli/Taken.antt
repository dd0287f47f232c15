-- ===== src/Cli/Taken.antt =====
-- The parameters that the command line collects.
use kitmux_linux.Base.{
  ◌≡◌, inl, inr, Bool, true, ◌&&◌, List, [], ◌∷◌, All, Bool-cases, Option-cases,
}
use kitmux_linux.Base.Result.{Result, ◌>>=◌, OnOk, if-OnOk, guard-OnOk, bind-OnOk, bind_any-OnOk}
use kitmux_linux.Text.{Text, codes, same_text, split_once}
use kitmux_linux.Cli.Arguments.{
  Params, CliParseError, accepts, insert, insert_param, one_param, two_params, close_params,
  event_key, event_params, given_params, connection, text_less, valid_fingerprint, role,
}

abbrev pub Taken : Text × Text → Type 0
Taken (key, value) = accepts key value ≡ true

-- Every parameter has been tested.
abbrev pub AllTaken : Params → Type 0
AllTaken params = All Taken params

insert-AllTaken :
    (key value : Text) (params : Params)
    → accepts key value ≡ true
    → AllTaken params
    → AllTaken (insert key value params)
unfolding insert
insert-AllTaken key value [] h a = (h, tt)
insert-AllTaken key value ((k, v) ∷ params) h a = elim (Bool-cases (same_text key k)) [
  | inl e ↦ rw e (h, a.1)
  | inr e ↦ elim (Bool-cases (text_less key k)) [
    | inl l ↦ rw (e, l) (h, a)
    | inr l ↦ rw (e, l) (a.0, insert-AllTaken key value params h a.1)
  ]
]

insert_param-AllTaken :
    (params : Params) (key value : Text)
    → AllTaken params
    → OnOk AllTaken (insert_param params key value)
unfolding insert_param
insert_param-AllTaken params key value a =
    guard-OnOk (accepts key value) _ _ λ h. OnOk.on_ok (insert-AllTaken key value params h a)

pub one_param-AllTaken : (key value : Text) → OnOk AllTaken (one_param key value)
unfolding one_param
one_param-AllTaken key value = insert_param-AllTaken [] key value tt

-- Parameters that are collected, and then used.
pub taken_then :
    {B : Type 0} {P : B → Type 0} (m : Result Params CliParseError)
    (f : Params → Result B CliParseError)
    → OnOk AllTaken m
    → ((params : Params) → AllTaken params → OnOk P (f params))
    → OnOk P (m >>= f)
taken_then m f h k = bind-OnOk m f h k

pub close_params-AllTaken : (id flag : Text) → OnOk AllTaken (close_params id flag)
unfolding close_params
close_params-AllTaken id flag =
    taken_then (one_param (codes "id") id) _ (one_param-AllTaken _ id) λ params a.
      if-OnOk (same_text flag (codes "--force")) _ _ (insert_param-AllTaken params _ _ a)
        OnOk.on_err

pub two_params-AllTaken :
    (key value key' value' : Text) → OnOk AllTaken (two_params key value key' value')
unfolding two_params one_param insert_param
two_params-AllTaken key value key' value' =
    taken_then (one_param key value) _ (one_param-AllTaken key value) λ params a.
      elim (Bool-cases (accepts key' value')) [
        | inl e ↦ rw (insert_param, e) (OnOk.on_ok (insert-AllTaken key' value' params e a))
        | inr e ↦ rw (insert_param, e) OnOk.on_err
      ]

pub event_params-AllTaken :
    (params : Params) (arguments : List Text)
    → AllTaken params
    → OnOk AllTaken (event_params params arguments)
unfolding event_params
event_params-AllTaken params [] a = OnOk.on_ok a
event_params-AllTaken params (option ∷ []) a = OnOk.on_err
event_params-AllTaken params (option ∷ value ∷ arguments) a =
    bind_any-OnOk (event_key option) _ λ key.
      taken_then (insert_param params key value) _ (insert_param-AllTaken params key value a)
        λ params' a'. event_params-AllTaken params' arguments a'

pub given_params-AllTaken :
    (params : Params) (arguments : List Text)
    → AllTaken params
    → OnOk AllTaken (given_params params arguments)
unfolding given_params
given_params-AllTaken params [] a = OnOk.on_ok a
given_params-AllTaken params (argument ∷ arguments) a =
    elim (Option-cases (split_once 61 argument)) [
      | inl e ↦ rw (given_params, e) OnOk.on_err
      | inr ((key, value), e) ↦
          rw (given_params, e)
            (taken_then (insert_param params key value) _ (insert_param-AllTaken params key value a)
              λ params' a'. given_params-AllTaken params' arguments a')
    ]

pub connection-AllTaken :
    (is_uuid : Text → Bool) (action : Text) (arguments : List Text)
    → OnOk AllTaken (connection is_uuid action arguments)
unfolding connection
connection-AllTaken is_uuid action [] = OnOk.on_err
connection-AllTaken is_uuid action (id ∷ []) =
    if-OnOk (is_uuid id) _ _ (one_param-AllTaken _ id) OnOk.on_err
connection-AllTaken is_uuid action (id ∷ x ∷ []) = OnOk.on_err
connection-AllTaken is_uuid action (id ∷ flag ∷ fingerprint ∷ []) = guard-OnOk (is_uuid id) _ _ λ _.
    taken_then (one_param (role action) id) _ (one_param-AllTaken _ id) λ params a.
      guard-OnOk (same_text flag (codes "--approve") && valid_fingerprint fingerprint) _ _
        λ _. insert_param-AllTaken params _ fingerprint a
connection-AllTaken is_uuid action (id ∷ x ∷ y ∷ z ∷ arguments) = OnOk.on_err
