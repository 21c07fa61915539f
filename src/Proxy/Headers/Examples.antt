-- ===== src/Proxy/Headers/Examples.antt =====
-- The theorem about src/mr_hide/proxy/headers.py at one request.
use mr_hide.Prelude.{Has, ◌≡◌, refl, ◌↔◌, true, List, [], ◌∷◌, text, text_eq}
use mr_hide.Privacy.Normalization.{collapse, lstrip, rstrip}
use mr_hide.Proxy.Headers.{
  HeaderPair, lower, is_blank, split_commas, hop_by_hop, tokens_of, connection_tokens, excluded,
  filter_headers, filter_request_headers,
}
use mr_hide.Proxy.Headers.Laws.{Reserved, filter_headers_iff}

abbrev sent : List HeaderPair
unfolding text
sent =
    (text "Host", text "localhost")
    ∷ (text "Connection", text "X-Trace, close")
    ∷ (text "X-Trace", text "1")
    ∷ (text "Accept", text "*/*")
    ∷ []

sent_run : filter_request_headers sent ≡ (text "Accept", text "*/*") ∷ []
unfolding text text_eq lower is_blank split_commas hop_by_hop tokens_of connection_tokens excluded
    filter_headers collapse lstrip rstrip sent
sent_run = refl

filter_headers_iff_example :
    Has (text "Accept", text "*/*") (filter_headers true sent)
    ↔ (Has (text "Accept", text "*/*") sent × (¬ Reserved true sent (lower (text "Accept"))))
filter_headers_iff_example = filter_headers_iff true sent (text "Accept", text "*/*")
