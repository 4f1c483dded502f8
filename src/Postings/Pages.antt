-- ===== src/Postings/Pages.antt =====
-- The postings and links of a page (backend/crawler/extract.go: parsePage, attr, resolveLink), from
-- the nodes that the HTML parser finds, in document order.
use jobs_scraper.Prelude.{not, ◌&&◌, ◌||◌, Option, none, some, List, [], ◌∷◌, ◌++◌, if◌then◌else◌}
use jobs_scraper.Prelude.Keys.{◌==◌, nat_eq, list_eq, lookup}
use jobs_scraper.Prelude.Text.{Text, Unicode, codes, trim_space, to_lower, contains, has_prefix}
use jobs_scraper.Crawl.Site.{Page}
use jobs_scraper.Postings.{Numbers, Value, Fields, find_postings}

-- An element with its name, its attributes and the text of its first child, if it has one.
pub record Element : Type 0 where
  pub name : Text
  pub attributes : List (Text × Text)
  pub first_child : Option Text

-- A link made absolute: its scheme, and its text without the fragment.
pub record Link : Type 0 where
  pub scheme : Text
  pub text : Text

abbrev pub text_or_empty : Option Text → Text
text_or_empty none = []
text_or_empty (some s) = s

abbrev pub attr : Element → Text → Text
attr node name = text_or_empty (lookup name node.attributes)

abbrev pub http_text : Option Link → Text
http_text none = []
http_text (some link) =
    if not (link.scheme == codes "http") && not (link.scheme == codes "https")
    then []
    else link.text

-- `resolve` parses a reference and resolves it against the page's URL; `none` where it is malformed.
unfoldable pub resolve_link : (Text → Option Link) → Text → Text
resolve_link resolve raw =
    let href = trim_space raw in
    if href == [] || has_prefix href (codes "#") then [] else http_text (resolve href)

module _ (n : Numbers) where
  abbrev pub script_postings :
      Unicode → (Text → Option (Value n)) → Element → Option Text → List (Fields n)
  script_postings u parse_json node none = []
  script_postings u parse_json node (some script) =
      if contains (to_lower u (attr node (codes "type"))) (codes "ld+json")
      then find_postings n parse_json script
      else []

  abbrev pub with_link : Text → List Text → List Text
  with_link link links = if link == [] then links else link ∷ links

  unfoldable pub parse_page :
      Unicode → (Text → Option (Value n)) → (Text → Option Link) → List Element → Page (Fields n)
  parse_page u parse_json resolve [] = record { postings = []; links = [] }
  parse_page u parse_json resolve (node ∷ nodes) =
      let rest = parse_page u parse_json resolve nodes in
      if node.name == codes "script"
      then record {
        postings = script_postings u parse_json node node.first_child ++ rest.postings;
        links = rest.links;
      }
      else if node.name == codes "a"
      then record {
        postings = rest.postings;
        links = with_link (resolve_link resolve (attr node (codes "href"))) rest.links;
      }
      else rest
