-- ===== src/Protocol/Http2/Hpack/StaticTable.antt =====
-- `BuildStaticTable` of src/protocol/http2/http2_hpack.cpp. A string is the list of its octets; the
-- comment on an entry spells it.
use iocp_http_runtime.Prelude.{ℕ, List, [], ◌∷◌}

pub record TableEntry : Type 0 where
  pub name : List ℕ
  pub value : List ℕ

unfoldable pub static_table : List TableEntry
static_table =
    -- 0
    record { name = []; value = [] }
    ∷
        -- 1 :authority
        record { name = 58 ∷ 97 ∷ 117 ∷ 116 ∷ 104 ∷ 111 ∷ 114 ∷ 105 ∷ 116 ∷ 121 ∷ []; value = [] }
    ∷
        -- 2 :method GET
        record { name = 58 ∷ 109 ∷ 101 ∷ 116 ∷ 104 ∷ 111 ∷ 100 ∷ []; value = 71 ∷ 69 ∷ 84 ∷ [] }
    ∷
        -- 3 :method POST
        record {
          name = 58 ∷ 109 ∷ 101 ∷ 116 ∷ 104 ∷ 111 ∷ 100 ∷ [];
          value = 80 ∷ 79 ∷ 83 ∷ 84 ∷ [];
        }
    ∷
        -- 4 :path /
        record { name = 58 ∷ 112 ∷ 97 ∷ 116 ∷ 104 ∷ []; value = 47 ∷ [] }
    ∷
        -- 5 :path /index.html
        record {
          name = 58 ∷ 112 ∷ 97 ∷ 116 ∷ 104 ∷ [];
          value = 47 ∷ 105 ∷ 110 ∷ 100 ∷ 101 ∷ 120 ∷ 46 ∷ 104 ∷ 116 ∷ 109 ∷ 108 ∷ [];
        }
    ∷
        -- 6 :scheme http
        record {
          name = 58 ∷ 115 ∷ 99 ∷ 104 ∷ 101 ∷ 109 ∷ 101 ∷ [];
          value = 104 ∷ 116 ∷ 116 ∷ 112 ∷ [];
        }
    ∷
        -- 7 :scheme https
        record {
          name = 58 ∷ 115 ∷ 99 ∷ 104 ∷ 101 ∷ 109 ∷ 101 ∷ [];
          value = 104 ∷ 116 ∷ 116 ∷ 112 ∷ 115 ∷ [];
        }
    ∷
        -- 8 :status 200
        record { name = 58 ∷ 115 ∷ 116 ∷ 97 ∷ 116 ∷ 117 ∷ 115 ∷ []; value = 50 ∷ 48 ∷ 48 ∷ [] }
    ∷
        -- 9 :status 204
        record { name = 58 ∷ 115 ∷ 116 ∷ 97 ∷ 116 ∷ 117 ∷ 115 ∷ []; value = 50 ∷ 48 ∷ 52 ∷ [] }
    ∷
        -- 10 :status 206
        record { name = 58 ∷ 115 ∷ 116 ∷ 97 ∷ 116 ∷ 117 ∷ 115 ∷ []; value = 50 ∷ 48 ∷ 54 ∷ [] }
    ∷
        -- 11 :status 304
        record { name = 58 ∷ 115 ∷ 116 ∷ 97 ∷ 116 ∷ 117 ∷ 115 ∷ []; value = 51 ∷ 48 ∷ 52 ∷ [] }
    ∷
        -- 12 :status 400
        record { name = 58 ∷ 115 ∷ 116 ∷ 97 ∷ 116 ∷ 117 ∷ 115 ∷ []; value = 52 ∷ 48 ∷ 48 ∷ [] }
    ∷
        -- 13 :status 404
        record { name = 58 ∷ 115 ∷ 116 ∷ 97 ∷ 116 ∷ 117 ∷ 115 ∷ []; value = 52 ∷ 48 ∷ 52 ∷ [] }
    ∷
        -- 14 :status 500
        record { name = 58 ∷ 115 ∷ 116 ∷ 97 ∷ 116 ∷ 117 ∷ 115 ∷ []; value = 53 ∷ 48 ∷ 48 ∷ [] }
    ∷
        -- 15 accept-charset
        record {
          name = 97 ∷ 99 ∷ 99 ∷ 101 ∷ 112 ∷ 116 ∷ 45 ∷ 99 ∷ 104 ∷ 97 ∷ 114 ∷ 115 ∷ 101 ∷ 116 ∷ [];
          value = [];
        }
    ∷
        -- 16 accept-encoding gzip, deflate
        record {
          name =
              97 ∷ 99 ∷ 99 ∷ 101 ∷ 112 ∷ 116 ∷ 45 ∷ 101 ∷ 110 ∷ 99 ∷ 111 ∷ 100 ∷ 105 ∷ 110 ∷ 103
              ∷ [];
          value = 103 ∷ 122 ∷ 105 ∷ 112 ∷ 44 ∷ 32 ∷ 100 ∷ 101 ∷ 102 ∷ 108 ∷ 97 ∷ 116 ∷ 101 ∷ [];
        }
    ∷
        -- 17 accept-language
        record {
          name =
              97 ∷ 99 ∷ 99 ∷ 101 ∷ 112 ∷ 116 ∷ 45 ∷ 108 ∷ 97 ∷ 110 ∷ 103 ∷ 117 ∷ 97 ∷ 103 ∷ 101
              ∷ [];
          value = [];
        }
    ∷
        -- 18 accept-ranges
        record {
          name = 97 ∷ 99 ∷ 99 ∷ 101 ∷ 112 ∷ 116 ∷ 45 ∷ 114 ∷ 97 ∷ 110 ∷ 103 ∷ 101 ∷ 115 ∷ [];
          value = [];
        }
    ∷
        -- 19 accept
        record { name = 97 ∷ 99 ∷ 99 ∷ 101 ∷ 112 ∷ 116 ∷ []; value = [] }
    ∷
        -- 20 access-control-allow-origin
        record {
          name =
              97 ∷ 99 ∷ 99 ∷ 101 ∷ 115 ∷ 115 ∷ 45 ∷ 99 ∷ 111 ∷ 110 ∷ 116 ∷ 114 ∷ 111 ∷ 108 ∷ 45 ∷ 97
              ∷ 108 ∷ 108 ∷ 111 ∷ 119 ∷ 45 ∷ 111 ∷ 114 ∷ 105 ∷ 103 ∷ 105 ∷ 110 ∷ [];
          value = [];
        }
    ∷
        -- 21 age
        record { name = 97 ∷ 103 ∷ 101 ∷ []; value = [] }
    ∷
        -- 22 allow
        record { name = 97 ∷ 108 ∷ 108 ∷ 111 ∷ 119 ∷ []; value = [] }
    ∷
        -- 23 authorization
        record {
          name = 97 ∷ 117 ∷ 116 ∷ 104 ∷ 111 ∷ 114 ∷ 105 ∷ 122 ∷ 97 ∷ 116 ∷ 105 ∷ 111 ∷ 110 ∷ [];
          value = [];
        }
    ∷
        -- 24 cache-control
        record {
          name = 99 ∷ 97 ∷ 99 ∷ 104 ∷ 101 ∷ 45 ∷ 99 ∷ 111 ∷ 110 ∷ 116 ∷ 114 ∷ 111 ∷ 108 ∷ [];
          value = [];
        }
    ∷
        -- 25 content-disposition
        record {
          name =
              99 ∷ 111 ∷ 110 ∷ 116 ∷ 101 ∷ 110 ∷ 116 ∷ 45 ∷ 100 ∷ 105 ∷ 115 ∷ 112 ∷ 111 ∷ 115 ∷ 105
              ∷ 116 ∷ 105 ∷ 111 ∷ 110 ∷ [];
          value = [];
        }
    ∷
        -- 26 content-encoding
        record {
          name =
              99 ∷ 111 ∷ 110 ∷ 116 ∷ 101 ∷ 110 ∷ 116 ∷ 45 ∷ 101 ∷ 110 ∷ 99 ∷ 111 ∷ 100 ∷ 105 ∷ 110
              ∷ 103 ∷ [];
          value = [];
        }
    ∷
        -- 27 content-language
        record {
          name =
              99 ∷ 111 ∷ 110 ∷ 116 ∷ 101 ∷ 110 ∷ 116 ∷ 45 ∷ 108 ∷ 97 ∷ 110 ∷ 103 ∷ 117 ∷ 97 ∷ 103
              ∷ 101 ∷ [];
          value = [];
        }
    ∷
        -- 28 content-length
        record {
          name =
              99 ∷ 111 ∷ 110 ∷ 116 ∷ 101 ∷ 110 ∷ 116 ∷ 45 ∷ 108 ∷ 101 ∷ 110 ∷ 103 ∷ 116 ∷ 104 ∷ [];
          value = [];
        }
    ∷
        -- 29 content-location
        record {
          name =
              99 ∷ 111 ∷ 110 ∷ 116 ∷ 101 ∷ 110 ∷ 116 ∷ 45 ∷ 108 ∷ 111 ∷ 99 ∷ 97 ∷ 116 ∷ 105 ∷ 111
              ∷ 110 ∷ [];
          value = [];
        }
    ∷
        -- 30 content-range
        record {
          name = 99 ∷ 111 ∷ 110 ∷ 116 ∷ 101 ∷ 110 ∷ 116 ∷ 45 ∷ 114 ∷ 97 ∷ 110 ∷ 103 ∷ 101 ∷ [];
          value = [];
        }
    ∷
        -- 31 content-type
        record {
          name = 99 ∷ 111 ∷ 110 ∷ 116 ∷ 101 ∷ 110 ∷ 116 ∷ 45 ∷ 116 ∷ 121 ∷ 112 ∷ 101 ∷ [];
          value = [];
        }
    ∷
        -- 32 cookie
        record { name = 99 ∷ 111 ∷ 111 ∷ 107 ∷ 105 ∷ 101 ∷ []; value = [] }
    ∷
        -- 33 date
        record { name = 100 ∷ 97 ∷ 116 ∷ 101 ∷ []; value = [] }
    ∷
        -- 34 etag
        record { name = 101 ∷ 116 ∷ 97 ∷ 103 ∷ []; value = [] }
    ∷
        -- 35 expect
        record { name = 101 ∷ 120 ∷ 112 ∷ 101 ∷ 99 ∷ 116 ∷ []; value = [] }
    ∷
        -- 36 expires
        record { name = 101 ∷ 120 ∷ 112 ∷ 105 ∷ 114 ∷ 101 ∷ 115 ∷ []; value = [] }
    ∷
        -- 37 from
        record { name = 102 ∷ 114 ∷ 111 ∷ 109 ∷ []; value = [] }
    ∷
        -- 38 host
        record { name = 104 ∷ 111 ∷ 115 ∷ 116 ∷ []; value = [] }
    ∷
        -- 39 if-match
        record { name = 105 ∷ 102 ∷ 45 ∷ 109 ∷ 97 ∷ 116 ∷ 99 ∷ 104 ∷ []; value = [] }
    ∷
        -- 40 if-modified-since
        record {
          name =
              105 ∷ 102 ∷ 45 ∷ 109 ∷ 111 ∷ 100 ∷ 105 ∷ 102 ∷ 105 ∷ 101 ∷ 100 ∷ 45 ∷ 115 ∷ 105 ∷ 110
              ∷ 99 ∷ 101 ∷ [];
          value = [];
        }
    ∷
        -- 41 if-none-match
        record {
          name = 105 ∷ 102 ∷ 45 ∷ 110 ∷ 111 ∷ 110 ∷ 101 ∷ 45 ∷ 109 ∷ 97 ∷ 116 ∷ 99 ∷ 104 ∷ [];
          value = [];
        }
    ∷
        -- 42 if-range
        record { name = 105 ∷ 102 ∷ 45 ∷ 114 ∷ 97 ∷ 110 ∷ 103 ∷ 101 ∷ []; value = [] }
    ∷
        -- 43 if-unmodified-since
        record {
          name =
              105 ∷ 102 ∷ 45 ∷ 117 ∷ 110 ∷ 109 ∷ 111 ∷ 100 ∷ 105 ∷ 102 ∷ 105 ∷ 101 ∷ 100 ∷ 45 ∷ 115
              ∷ 105 ∷ 110 ∷ 99 ∷ 101 ∷ [];
          value = [];
        }
    ∷
        -- 44 last-modified
        record {
          name = 108 ∷ 97 ∷ 115 ∷ 116 ∷ 45 ∷ 109 ∷ 111 ∷ 100 ∷ 105 ∷ 102 ∷ 105 ∷ 101 ∷ 100 ∷ [];
          value = [];
        }
    ∷
        -- 45 link
        record { name = 108 ∷ 105 ∷ 110 ∷ 107 ∷ []; value = [] }
    ∷
        -- 46 location
        record { name = 108 ∷ 111 ∷ 99 ∷ 97 ∷ 116 ∷ 105 ∷ 111 ∷ 110 ∷ []; value = [] }
    ∷
        -- 47 max-forwards
        record {
          name = 109 ∷ 97 ∷ 120 ∷ 45 ∷ 102 ∷ 111 ∷ 114 ∷ 119 ∷ 97 ∷ 114 ∷ 100 ∷ 115 ∷ [];
          value = [];
        }
    ∷
        -- 48 proxy-authenticate
        record {
          name =
              112 ∷ 114 ∷ 111 ∷ 120 ∷ 121 ∷ 45 ∷ 97 ∷ 117 ∷ 116 ∷ 104 ∷ 101 ∷ 110 ∷ 116 ∷ 105 ∷ 99
              ∷ 97 ∷ 116 ∷ 101 ∷ [];
          value = [];
        }
    ∷
        -- 49 proxy-authorization
        record {
          name =
              112 ∷ 114 ∷ 111 ∷ 120 ∷ 121 ∷ 45 ∷ 97 ∷ 117 ∷ 116 ∷ 104 ∷ 111 ∷ 114 ∷ 105 ∷ 122 ∷ 97
              ∷ 116 ∷ 105 ∷ 111 ∷ 110 ∷ [];
          value = [];
        }
    ∷
        -- 50 range
        record { name = 114 ∷ 97 ∷ 110 ∷ 103 ∷ 101 ∷ []; value = [] }
    ∷
        -- 51 referer
        record { name = 114 ∷ 101 ∷ 102 ∷ 101 ∷ 114 ∷ 101 ∷ 114 ∷ []; value = [] }
    ∷
        -- 52 refresh
        record { name = 114 ∷ 101 ∷ 102 ∷ 114 ∷ 101 ∷ 115 ∷ 104 ∷ []; value = [] }
    ∷
        -- 53 retry-after
        record {
          name = 114 ∷ 101 ∷ 116 ∷ 114 ∷ 121 ∷ 45 ∷ 97 ∷ 102 ∷ 116 ∷ 101 ∷ 114 ∷ [];
          value = [];
        }
    ∷
        -- 54 server
        record { name = 115 ∷ 101 ∷ 114 ∷ 118 ∷ 101 ∷ 114 ∷ []; value = [] }
    ∷
        -- 55 set-cookie
        record { name = 115 ∷ 101 ∷ 116 ∷ 45 ∷ 99 ∷ 111 ∷ 111 ∷ 107 ∷ 105 ∷ 101 ∷ []; value = [] }
    ∷
        -- 56 strict-transport-security
        record {
          name =
              115 ∷ 116 ∷ 114 ∷ 105 ∷ 99 ∷ 116 ∷ 45 ∷ 116 ∷ 114 ∷ 97 ∷ 110 ∷ 115 ∷ 112 ∷ 111 ∷ 114
              ∷ 116 ∷ 45 ∷ 115 ∷ 101 ∷ 99 ∷ 117 ∷ 114 ∷ 105 ∷ 116 ∷ 121 ∷ [];
          value = [];
        }
    ∷
        -- 57 transfer-encoding
        record {
          name =
              116 ∷ 114 ∷ 97 ∷ 110 ∷ 115 ∷ 102 ∷ 101 ∷ 114 ∷ 45 ∷ 101 ∷ 110 ∷ 99 ∷ 111 ∷ 100 ∷ 105
              ∷ 110 ∷ 103 ∷ [];
          value = [];
        }
    ∷
        -- 58 user-agent
        record { name = 117 ∷ 115 ∷ 101 ∷ 114 ∷ 45 ∷ 97 ∷ 103 ∷ 101 ∷ 110 ∷ 116 ∷ []; value = [] }
    ∷
        -- 59 vary
        record { name = 118 ∷ 97 ∷ 114 ∷ 121 ∷ []; value = [] }
    ∷
        -- 60 via
        record { name = 118 ∷ 105 ∷ 97 ∷ []; value = [] }
    ∷
        -- 61 www-authenticate
        record {
          name =
              119 ∷ 119 ∷ 119 ∷ 45 ∷ 97 ∷ 117 ∷ 116 ∷ 104 ∷ 101 ∷ 110 ∷ 116 ∷ 105 ∷ 99 ∷ 97 ∷ 116
              ∷ 101 ∷ [];
          value = [];
        }
    ∷ []
