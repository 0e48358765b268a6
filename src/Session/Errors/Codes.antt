-- ===== src/Session/Errors/Codes.antt =====
-- The errors of sessions are told apart by their codes, and the client always gets a message.
use term_bridge.Prelude.{
  String, Option, none, some, ◌==◌, if◌then◌else◌, ◌≡◌, refl, false, sym, subst, ap, ◌∙◌, arith,
}
use term_bridge.Session.Errors.{
  SessionError, code, code_of, not_attachable, closed, not_found, workspace_not_found, missing_name,
  missing_command, not_editable, already_running, cannot_rerun_running, cannot_delete_running,
  invalid_command_shape, invalid_command_source, command_source_requires_command,
  update_requires_fields, invalid_size, invalid_cwd, session_ids_required, duplicate_session_id,
}

-- A reader of the codes.
of_code : String → SessionError
of_code s =
    if s == "session_not_attachable"
    then not_attachable
    else if s == "session_closed"
    then closed
    else if s == "session_not_found"
    then not_found
    else if s == "workspace_not_found"
    then workspace_not_found
    else if s == "missing_session_name"
    then missing_name
    else if s == "missing_session_command"
    then missing_command
    else if s == "session_not_editable"
    then not_editable
    else if s == "session_already_running"
    then already_running
    else if s == "cannot_rerun_running_session"
    then cannot_rerun_running
    else if s == "cannot_delete_running_session"
    then cannot_delete_running
    else if s == "invalid_session_command_shape"
    then invalid_command_shape
    else if s == "invalid_session_command_source"
    then invalid_command_source
    else if s == "session_command_source_requires_command"
    then command_source_requires_command
    else if s == "session_update_requires_fields"
    then update_requires_fields
    else if s == "invalid_terminal_size"
    then invalid_size
    else if s == "invalid_session_cwd"
    then invalid_cwd
    else if s == "session_ids_required"
    then session_ids_required
    else duplicate_session_id

of_code-code : (e : SessionError) → of_code (code e) ≡ e
unfolding of_code code
of_code-code not_attachable = refl
of_code-code closed = refl
of_code-code not_found = refl
of_code-code workspace_not_found = refl
of_code-code missing_name = refl
of_code-code missing_command = refl
of_code-code not_editable = refl
of_code-code already_running = refl
of_code-code cannot_rerun_running = refl
of_code-code cannot_delete_running = refl
of_code-code invalid_command_shape = refl
of_code-code invalid_command_source = refl
of_code-code command_source_requires_command = refl
of_code-code update_requires_fields = refl
of_code-code invalid_size = refl
of_code-code invalid_cwd = refl
of_code-code session_ids_required = refl
of_code-code duplicate_session_id = refl

has_code : (e : SessionError) → (code e == "") ≡ false
unfolding code
has_code not_attachable = refl
has_code closed = refl
has_code not_found = refl
has_code workspace_not_found = refl
has_code missing_name = refl
has_code missing_command = refl
has_code not_editable = refl
has_code already_running = refl
has_code cannot_rerun_running = refl
has_code cannot_delete_running = refl
has_code invalid_command_shape = refl
has_code invalid_command_source = refl
has_code command_source_requires_command = refl
has_code update_requires_fields = refl
has_code invalid_size = refl
has_code invalid_cwd = refl
has_code session_ids_required = refl
has_code duplicate_session_id = refl

-- CodeOf tells any two of the session errors, and errors of another kind, apart.
pub code_of-distinct : (e f : Option SessionError) → code_of e ≡ code_of f → e ≡ f
unfolding code_of
code_of-distinct none none h = refl
code_of-distinct none (some f) h =
    ground (arith, subst (λ s. (s == "") ≡ false) (sym h) (has_code f))
code_of-distinct (some e) none h = ground (arith, subst (λ s. (s == "") ≡ false) h (has_code e))
code_of-distinct (some e) (some f) h =
    ap (λ c. some c) (sym (of_code-code e) ∙ ap of_code h ∙ of_code-code f)
