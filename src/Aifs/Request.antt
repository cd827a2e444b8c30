-- ===== src/Aifs/Request.antt =====
-- `send`, `die`, `ok` and `fmt_time`.
use ai_m_os.Common.{
  ℕ, List, [], ◌∷◌, ◌++◌, Option, none, some, Text, codes, Exn, Result, ok, raised, is_exception,
  if◌then◌else◌,
}
use ai_m_os.Common.Action.{M, ◌>>=◌, ◌>>◌, pure, from_result, lift, try_except}
use ai_m_os.Float.{Float}
use ai_m_os.Json
use ai_m_os.Json.{Json, str, dict, Fields, field, is_true}
use ai_m_os.Client.{Sockets, recv_all, with_socket}

-- What was printed, and where.
pub data Output : Type 0 where
  out : Text → Output
  err : Text → Output

pub record Cli (W F : Type 0) : Type 1 where
  pub net : Sockets W
  pub fl : Float F
  pub dumps : Json F → Text
  pub loads : Text → Result (Json F)
  -- `str(v)`, and `f"{v:<n}"`
  pub str_of : Json F → Text
  pub pad : ℕ → Json F → Result Text
  -- `str(e)`
  pub message_of : Exn → Text
  -- `datetime.fromisoformat(v).strftime(…)`; `none` is any exception
  pub format_time : Json F → Option Text
  -- `input(prompt)`
  pub input : Text → M W Text
  -- the calls of `recv` that an answer may take
  pub fuel : ℕ

abbrev pub socket_path : Text
socket_path = codes "/run/aimos/aifs-daemon.sock"

abbrev pub AifsState : Type 0 → Type 0
AifsState W = W × List Output

module _ {W : Type 0} where
  unfoldable pub print : Text → M (AifsState W) (Unit {0})
  print text s = (ok tt, (s.0, s.1 ++ out text ∷ []))

  unfoldable pub die : {A : Type 0} → Text → M (AifsState W) A
  die msg s = (raised (Exn.system_exit 1), (s.0, s.1 ++ err (codes "error: " ++ msg) ∷ []))

-- `v[key]`
unfoldable pub subscript : {F : Type 0} → Json F → Text → Result (Json F)
unfolding Json.get
subscript (dict fs) key = elim (Json.get key fs) [ none ↦ raised Exn.key_error | some v ↦ ok v ]
subscript _ key = raised Exn.other_error

-- `v.get(key)` with a default
unfoldable pub get_of : {F : Type 0} → Json F → Text → Json F → Result (Json F)
unfolding Json.get
get_of (dict fs) key d = ok (Json.get_or key d fs)
get_of _ key d = raised Exn.attribute_error

module _ {W F : Type 0} (cli : Cli W F) where
  -- The body of the `with`.
  unfoldable pub converse : Json F → cli.net.Sock → M W Text
  unfolding recv_all
  converse req s = do
    cli.net.set_timeout s 10
    cli.net.connect s socket_path
    cli.net.send_all s (cli.dumps req ++ codes "\n")
    recv_all cli.net cli.fuel s []

  -- the `try` of `send`
  unfoldable pub exchange : Json F → M W (Json F)
  unfolding converse with_socket
  exchange req = do answer ← with_socket cli.net (converse req); from_result (cli.loads answer)

  -- the `except` clauses of `send`
  unfoldable pub socket_error : Exn → M (AifsState W) (Json F)
  unfolding die
  socket_error Exn.file_not_found =
      die (codes "aifs-daemon is not running: systemctl start aimos-aifs")
  socket_error e = die (codes "socket error: " ++ cli.message_of e)

  unfoldable pub send : Text → Fields F → M (AifsState W) (Json F)
  unfolding exchange socket_error
  send op kwargs =
      try_except is_exception (lift (exchange (dict (field (codes "op") (str op) kwargs))))
        socket_error

  -- `ok(resp)`
  unfoldable pub require_ok : Json F → M (AifsState W) (Unit {0})
  unfolding get_of die is_true
  require_ok resp = do
    flag ← from_result (get_of resp (codes "ok") Json.null)
    if is_true cli.fl flag then pure tt else (do
      message ← from_result (get_of resp (codes "error") (str (codes "unknown error")))
      die (cli.str_of message))

  unfoldable pub fmt_time : Json F → Json F
  fmt_time iso = elim (cli.format_time iso) [ none ↦ iso | some t ↦ str t ]
