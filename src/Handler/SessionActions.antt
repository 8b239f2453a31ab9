-- ===== src/Handler/SessionActions.antt =====
-- The session actions of crates/jiandu-mcp/src/handler.rs. The locks on the sessions are left out, since
-- one call runs at a time here.
use jiandu.Prelude.{[], Option, length, unwrap_or}
use jiandu.Prelude.Classes.{nat_eq, list_eq, option_eq}
use jiandu.Text.{Text}
use jiandu.Context.{MemoryExecutionContext, require_session_id}
use jiandu.Handler.{session_topic, required_content, max_session_note_chars}
use jiandu.Args.{MemoryActionOptions}
use jiandu.Store.Disk.{Env}
use jiandu.Sessions.{
  read_session_topic, write_session_topic, delete_session_topic, list_session_topics,
}
use jiandu.Search.{clamp}
use jiandu.Handler.Call.{Call, ◌>>=◌, ◌>>◌, return, check, run}
use jiandu.Handler.Response.{
  Response, max_chars_of, note_of, too_large, joined, note_read, note_written, note_cleared, topics,
}

module _ (store : Env) (context : MemoryExecutionContext) where
  open store.float use {F, lit}

  unfoldable pub session_read : Option Text → Option MemoryActionOptions → Call (Response F)
  session_read topic options = check (require_session_id context) >>= λ session_id.
      run (read_session_topic store session_id (session_topic topic)) >>= λ content. return (
        note_read (
          note_of (session_topic topic)
            (clamp 1 max_session_note_chars
              (unwrap_or (max_chars_of options) max_session_note_chars))
            content))

  unfoldable pub session_append : Option Text → Text → Call (Response F)
  session_append topic content = check (require_session_id context) >>= λ session_id.
      check (required_content content) >>= λ content.
      run (read_session_topic store session_id (session_topic topic)) >>= λ existing.
      check (too_large (joined (unwrap_or existing []) content))
      >> (run (
            write_session_topic store session_id (session_topic topic)
              (joined (unwrap_or existing []) content))
          >>= λ path. return (
              note_written (session_topic topic) path
                (length (joined (unwrap_or existing []) content))))

  unfoldable pub session_replace : Option Text → Text → Call (Response F)
  session_replace topic content = check (require_session_id context) >>= λ session_id.
      check (required_content content) >>= λ content.
      check (too_large content)
      >> (run (write_session_topic store session_id (session_topic topic) content) >>= λ path.
          return (note_written (session_topic topic) path (length content)))

  unfoldable pub session_clear : Option Text → Call (Response F)
  session_clear topic = check (require_session_id context) >>= λ session_id.
      run (delete_session_topic store session_id (session_topic topic)) >>= λ deleted.
      return (note_cleared (session_topic topic) deleted)

  unfoldable pub session_list_topics : Call (Response F)
  session_list_topics = check (require_session_id context) >>= λ session_id.
      run (list_session_topics store session_id) >>= λ listed. return (topics listed)
