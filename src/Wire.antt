-- ===== src/Wire.antt =====
-- Client and server together: tui/src/api_client.c over a network to server/src/api/api.c. The
-- network and libcurl are a parameter, with what is documented of them as `Delivers`.
pub mod Told
pub mod Post
pub mod Orders
pub mod Reads
pub mod Message
mod Tests
use sshnack.Base.{ℕ, ◌≡◌, ◌⊎◌, ◌≤◌, ◌++◌, Bool, true, false, Option, none, some, [], length, take}
use sshnack.Base.Int.{pos}
use sshnack.Base.Text.{Text}
use sshnack.Auth.{auth_parse}
use sshnack.Api.{parse_method}
use sshnack.Api.Laws.{last_bearer}
use sshnack.Router.{Request}
use sshnack.Sqlite.{Sqlite, run}
use sshnack.Handlers.Send.{Sent, sent}
use sshnack.Server.{Server, handle_request}
use sshnack.Server.Fits.{status_of}
use sshnack.Client.Http.{ApiClient, HttpRequest, Transfer, Curl, data_of}

-- The request that `parse_request` makes of a request with this method, path, header and body
-- (Api/Laws).
abbrev pub carried : Server → (Text → Text) → HttpRequest → Request
carried server target req = record {
  method = parse_method req.method;
  path = target req.url;
  body = take 511 (data_of req.post_fields);
  auth = auth_parse (some (last_bearer [] req.headers)) server.admin_token;
}

-- A transfer fails before or after the server has worked on the request, or it brings the status of
-- what the server sent. `target` is the part of a URL that stands in the first line.
pub record Delivers (curl : Curl) (server : Server) (e : Sqlite) (c : ApiClient) : Type 0 where
  pub connection : curl.World → e.Db
  pub target : Text → Text
  pub target_law : (path : Text) → length path ≤ 63 → target (take 511 (c.base_url ++ path)) ≡ path
  pub delivery :
      (req : HttpRequest) (w : curl.World)
      → let (x, w') = curl.perform req w in
        let r = carried server target req in
        let (out, d') = run e (handle_request server false r.method r) (connection w) in
        ((x.succeeds ≡ false) × ((connection w' ≡ connection w) ⊎ (connection w' ≡ d')))
        ⊎ ((connection w' ≡ d')
            × ((text : Text) × (out ≡ sent text) × (status_of text ≡ some (pos x.status))))
