-- ===== src/Metrics/Response.antt =====
-- src/metrics.rs, `handle_request`: the response, as the bytes that are written.
pub mod Reader
use oxiduct.Base.{ℕ, Bool, true, false, List, [], ◌∷◌, ◌++◌, length}
use oxiduct.Text.{Text, codes, decimal}

unfoldable pub header : (status content_type : Text) → (body : List ℕ) → List ℕ
header status content_type body =
    codes "HTTP/1.1 "
    ++ (status
        ++ (codes "\r\nContent-Type: "
            ++ (content_type
                ++ (codes "\r\nContent-Length: "
                    ++ (decimal (length body) ++ codes "\r\nConnection: close\r\n\r\n")))))

unfoldable pub response : (is_metrics : Bool) → (rendered : List ℕ) → List ℕ
unfolding header
response true rendered =
    header (codes "200 OK") (codes "text/plain; version=0.0.4") rendered ++ rendered
response false rendered =
    header (codes "404 Not Found") (codes "text/plain") (codes "404 not found\n")
    ++ codes "404 not found\n"
