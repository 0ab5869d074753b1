-- ===== src/Daemon/Connection.antt =====
-- handleConnection of cmd/bb_docker_root_fetcher/main.go. The server is a parameter, and so is what
-- other connections do to it while this one holds a root. Errors of writes are dropped.
use bb_action_router.Base.{
  Text, codes, same, ℕ, Option, none, some, [], ◌∷◌, ◌++◌, ◌==◌, if◌then◌else◌,
}
use bb_action_router.Status.{Error, Result, ok, err}
use bb_action_router.Router.Template.{trim_space}

pub record Roots (S : Type 0) : Type 0 where
  -- The path, and the func that releases it.
  pub acquire : Text → S → Result (Text × (S → S)) × S
  -- An error as %v prints it.
  pub message : Error → Text

abbrev pub prepend : ℕ → Option Text → Option Text
prepend c none = none
prepend c (some line) = some (c ∷ line)

-- ReadString('\n') of what the client sends: none when that ends before a newline.
unfoldable pub read_string : Text → Option Text
read_string [] = none
read_string (c ∷ s) =
    let rest = read_string s in if c == b'\n' then some (c ∷ []) else prepend c rest

-- strings.SplitN(s, " ", 2)
unfoldable pub split_two : Text → Text × Option Text
split_two [] = ([], none)
split_two (c ∷ s) = let r = split_two s in if c == b' ' then ([], some s) else (c ∷ r.0, r.1)

-- The reference that a line asks for.
unfoldable pub parse_request : Text → Option Text
parse_request line =
    let parts = split_two line in if same parts.0 (codes "ACQUIRE") then parts.1 else none

module _ {S : Type 0} (h : Roots S) (meanwhile : S → S) where
  -- What is written, and the server in the end; the root is released when the client is gone.
  unfoldable pub answer : Result (Text × (S → S)) × S → Text × S
  answer (err e, s) = (codes "ERROR " ++ (h.message e ++ codes "\n"), s)
  answer (ok (path, release), s) = (codes "OK " ++ (path ++ codes "\n"), release (meanwhile s))

  unfoldable pub serve : Text → Option Text → S → Text × S
  serve line none s = (codes "ERROR invalid request: " ++ (line ++ codes "\n"), s)
  serve line (some ref) s = answer (h.acquire ref s)

  unfoldable pub serve_line : Option Text → S → Text × S
  serve_line none s = ([], s)
  serve_line (some line) s =
      let request = trim_space line in serve request (parse_request request) s

  unfoldable pub handle_connection : Text → S → Text × S
  handle_connection input s = let r = serve_line (read_string input) s in (codes "HI\n" ++ r.0, r.1)
