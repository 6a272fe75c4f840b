-- ===== src/Ir/Compiler/Jumps/Arms.antt =====
-- What each arm of `compile_instruction` in crates/stratamoto-ir/src/compiler.rs does to the actions.
use stratamoto.Base.{
  Bool, true, false, map_get, map_insert, map_get-map_insert, ◌==◌, ==_iff, if◌then◌else◌, ℕ, ◌≡◌,
  refl, ap, sym, ◌∙◌, List, [], ◌∷◌, ◌++◌, append_assoc, append-nil, length, get_elem?, set, Option,
  none, some, IfOk, is_ok, is_err, is_panic, IfOk-bind, IfOk-any,
}
use stratamoto.Ir.Variable.{Protocol}
use stratamoto.Ir.Spec.{
  SetupConnectionSpec, Action, enter_on_setup_success, exit_block, ClientViolation, Wire,
  max_action_id,
}
use stratamoto.Ir.Compiler.{
  Compiler, value, input, read, as_role, as_connection, as_version, as_flags, as_port, as_string,
  as_bytes, as_duration, as_attempt, as_setup, encode_setup_connection, push_action, push_value,
  note, edit_setup, send_setup, compile_connect, begin_success, patch_enter, end_success_of,
  end_success, send_raw, compile_set_versions, compile_set_flags, compile_set_endpoint,
  compile_set_device_info, end_build, compile_advance_time,
}
use stratamoto.Ir.Compiler.Jumps.{KeepsSetups, Moves, appends, opens, closes}

same_setups :
    (c c' : Compiler) → c'.metadata.session_setups ≡ c.metadata.session_setups → KeepsSetups c c'
same_setups c c' m i spec g = (spec, ap (map_get i) m ∙ g)

-- An arm that pushes no action.
pub stays :
    (c c' : Compiler)
    → c'.actions ≡ c.actions
    → c'.blocks ≡ c.blocks
    → c'.metadata.session_setups ≡ c.metadata.session_setups
    → Moves c c'
stays c c' a b m = appends [] tt (a ∙ sym (append-nil c.actions)) b (same_setups c c' m) tt

-- A setup that is inserted is recorded, and those before stay so.
inserted_setup :
    (i : ℕ) (spec : SetupConnectionSpec) (m : List (ℕ × SetupConnectionSpec))
    → map_get i (map_insert i spec m) ≡ some spec
inserted_setup i spec m =
    map_get-map_insert i i spec m
    ∙ ap (λ b. if b then some spec else map_get i m) ((==_iff i i).1 refl)

kept_setup :
    (k i : ℕ) (spec old : SetupConnectionSpec) (m : List (ℕ × SetupConnectionSpec))
    → map_get i m ≡ some old
    → (b : Bool) → (k == i) ≡ b
    → (new : SetupConnectionSpec) × (map_get i (map_insert k spec m) ≡ some new)
kept_setup k i spec old m g true e =
    (spec, map_get-map_insert k i spec m ∙ ap (λ b. if b then some spec else map_get i m) e)
kept_setup k i spec old m g false e =
    (old, map_get-map_insert k i spec m ∙ ap (λ b. if b then some spec else map_get i m) e ∙ g)

module _ (c : Compiler) (index : ℕ) (inputs : List ℕ) where
  edit-Moves :
      (edit : SetupConnectionSpec → SetupConnectionSpec) → IfOk (Moves c) (edit_setup edit c inputs)
  unfolding edit_setup
  edit-Moves edit = IfOk-bind (IfOk-any (input inputs 0)) λ i _.
      IfOk-bind (IfOk-any (value c i))
        λ v _. IfOk-bind (IfOk-any (as_setup i v)) λ s _. is_ok (stays c _ refl refl refl)

  pub set_versions-Moves : IfOk (Moves c) (compile_set_versions inputs c)
  unfolding compile_set_versions
  set_versions-Moves =
      IfOk-bind (IfOk-any (read as_version c inputs 1))
        λ _ _. IfOk-bind (IfOk-any (read as_version c inputs 2)) λ _ _. edit-Moves _

  pub set_flags-Moves : IfOk (Moves c) (compile_set_flags inputs c)
  unfolding compile_set_flags
  set_flags-Moves = IfOk-bind (IfOk-any (read as_flags c inputs 1)) λ _ _. edit-Moves _

  pub set_endpoint-Moves : IfOk (Moves c) (compile_set_endpoint inputs c)
  unfolding compile_set_endpoint
  set_endpoint-Moves =
      IfOk-bind (IfOk-any (read as_string c inputs 1))
        λ _ _. IfOk-bind (IfOk-any (read as_port c inputs 2)) λ _ _. edit-Moves _

  pub set_device_info-Moves : IfOk (Moves c) (compile_set_device_info inputs c)
  unfolding compile_set_device_info
  set_device_info-Moves = IfOk-bind (IfOk-any (read as_string c inputs 1)) λ _ _.
      IfOk-bind (IfOk-any (read as_string c inputs 2)) λ _ _.
        IfOk-bind (IfOk-any (read as_string c inputs 3))
          λ _ _. IfOk-bind (IfOk-any (read as_string c inputs 4)) λ _ _. edit-Moves _

  pub end_build-Moves : (p : Protocol) → IfOk (Moves c) (end_build inputs p c)
  unfolding end_build push_value
  end_build-Moves p =
      IfOk-bind (IfOk-any (read as_setup c inputs 0)) λ spec _. is_ok (stays c _ refl refl refl)

  pub connect-Moves : IfOk (Moves c) (compile_connect index inputs c)
  unfolding compile_connect push_action push_value
  connect-Moves = IfOk-bind (IfOk-any (read as_role c inputs 0)) λ role_id _.
      is_ok (appends (_ ∷ []) ((λ e. e), tt) refl refl (λ i spec g. (spec, g)) (tt, tt))

  pub begin_success-Moves : IfOk (Moves c) (begin_success index inputs c)
  unfolding begin_success push_action push_value
  begin_success-Moves =
      IfOk-bind (IfOk-any (read as_attempt c inputs 0))
        λ attempt _. is_ok (opens attempt.0 max_action_id refl refl (λ i spec g. (spec, g)))

  pub send_raw-Moves : (m x : ℕ) → IfOk (Moves c) (send_raw index inputs m x c)
  unfolding send_raw push_action
  send_raw-Moves m x = IfOk-bind (IfOk-any (read as_connection c inputs 0)) λ link _.
      IfOk-bind (IfOk-any (read as_bytes c inputs 1)) λ payload _.
        is_ok (appends (_ ∷ []) ((λ e. e), tt) refl refl (λ i spec g. (spec, g)) (tt, tt))

  pub advance_time-Moves : IfOk (Moves c) (compile_advance_time index inputs c)
  unfolding compile_advance_time push_action
  advance_time-Moves =
      IfOk-bind (IfOk-any (read as_duration c inputs 0))
        λ time _. is_ok (appends (_ ∷ []) ((λ e. e), tt) refl refl (λ i spec g. (spec, g)) (tt, tt))

  pub probe-Moves : Moves c (push_action index Action.probe c)
  unfolding push_action
  probe-Moves = appends (_ ∷ []) ((λ e. e), tt) refl refl (λ i spec g. (spec, g)) (tt, tt)

  note-Moves :
      (action : ℕ) (vs : List ClientViolation) (c' : Compiler)
      → Moves c c'
      → Moves c (note action vs c')
  unfolding note
  note-Moves action [] c' m = m
  note-Moves action (v ∷ vs) c' (appends ns n a b k w) = appends ns n a b k w
  note-Moves action (v ∷ vs) c' (opens s e a b k) = opens s e a b k
  note-Moves action (v ∷ vs) c' (closes k s e b f a x) = closes k s e b f a x

  pub send_setup-Moves : (w : Wire) (p : Protocol) → IfOk (Moves c) (send_setup w index inputs p c)
  unfolding send_setup push_action push_value
  send_setup-Moves w p = IfOk-bind (IfOk-any (read as_connection c inputs 0)) λ link _.
      IfOk-bind (IfOk-any (read as_setup _ inputs 1)) λ spec _.
        IfOk-bind (IfOk-any (input inputs 1)) λ variable _.
          IfOk-bind (IfOk-any (encode_setup_connection w spec variable)) λ payload _. is_ok (
            note-Moves _ _ _ (
              appends (_ ∷ _ ∷ []) ((λ e. e), ((λ e. e), tt))
                (append_assoc c.actions (_ ∷ []) (_ ∷ [])) refl
                (λ i old g. kept_setup c.sessions i spec old c.metadata.session_setups g _ refl)
                (tt, ((spec, inserted_setup c.sessions spec c.metadata.session_setups), tt))))

  -- The patch of an enter action, once its exit is pushed.
  patch-Moves :
      (enter : ℕ) (blocks : List ℕ) (p : Compiler)
      → c.blocks ≡ enter ∷ blocks
      → p.actions ≡ c.actions ++ exit_block ∷ []
      → p.blocks ≡ blocks
      → p.metadata.session_setups ≡ c.metadata.session_setups
      → IfOk (Moves c) (patch_enter enter (length c.actions) p)
  unfolding patch_enter
  patch-Moves enter blocks p b a b' m = at_enter (get_elem? p.actions enter) refl
    where
      at_enter :
          (o : Option Action)
          → get_elem? p.actions enter ≡ o
          → IfOk (Moves c) (patch_enter enter (length c.actions) p)
      at_enter none e = rw (e, patch_enter) is_panic
      at_enter (some (enter_on_setup_success s x)) e =
          rw (e, patch_enter)
            (is_ok (
              closes enter s x (b ∙ ap (λ bs. enter ∷ bs) (sym b'))
                (ap (λ acts. get_elem? acts enter) (sym a) ∙ e)
                (ap (λ acts. set acts enter (enter_on_setup_success s (length c.actions))) a)
                (λ i spec g. (spec, ap (map_get i) m ∙ g))))
      at_enter (some _) e = rw (e, patch_enter) is_err

  end_success_of-Moves :
      (blocks : List ℕ) → c.blocks ≡ blocks → IfOk (Moves c) (end_success_of blocks index c)
  unfolding end_success_of push_action
  end_success_of-Moves [] b = is_err
  end_success_of-Moves (enter ∷ blocks) b = patch-Moves enter blocks _ b refl refl refl

  pub end_success-Moves : IfOk (Moves c) (end_success index c)
  unfolding end_success
  end_success-Moves = end_success_of-Moves c.blocks refl
