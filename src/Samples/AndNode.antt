-- ===== src/Samples/AndNode.antt =====
-- A node that asks for all of its parts, at a concrete input.
use nvdtools.Prelude.{
  ℕ, ◌≡◌, refl, true, false, not, Bool, Bytes, Option, none, some, List, [], ◌∷◌, codes, ◌&&◌, ◌==◌,
  text_eq, is_empty, if◌then◌else◌,
}
use nvdtools.Wfn.Attributes.{Attributes, any, new_attributes}
use nvdtools.Wfn.Matcher.{contains}
use nvdtools.Nvd.MatchCpe.{FeedMatch}
use nvdtools.Nvd.MatchNode.{Node, node, no_nodes, one_node, node_matcher}
use nvdtools.Nvd.Nodes.{below}
use nvdtools.Nvd.AndNode.{returned, each_match, each_child, returned-and_node}

-- A reader of names that takes the whole text for the product.
abbrev product_of : Bytes → Option Attributes
product_of uri = some (record (new_attributes any) { product = uri })

abbrev of_product : Bytes → FeedMatch
of_product product = record {
  cpe22_uri = [];
  cpe23_uri = product;
  vulnerable = true;
  version_end_excluding = [];
  version_end_including = [];
  version_start_excluding = [];
  version_start_including = [];
}

abbrev on_linux : Node
on_linux =
    node (some (of_product (codes "tar")) ∷ [])
      (one_node (node (some (of_product (codes "linux")) ∷ []) no_nodes (codes "OR") false)
        no_nodes)
      (codes "and") false

abbrev installed : ℕ → Attributes
installed i = record (new_attributes any) {
  product = if i == 1 then codes "tar" else codes "linux";
}

both_installed :
    returned product_of installed false (1 ∷ 2 ∷ []) (node_matcher product_of on_linux) ≡ 2 ∷ 1 ∷ []
unfolding nvdtools.Wfn.Matcher.run nvdtools.Wfn.Matcher.select nvdtools.Wfn.Matcher.insert_all
    nvdtools.Nvd.MatchNode.node_matcher nvdtools.Nvd.MatchCpe.parsed_matcher
    nvdtools.Nvd.MatchCpe.match nvdtools.Nvd.MatchCpe.match_version
    nvdtools.Nvd.MatchCpe.cpe_matcher contains nvdtools.Wfn.Matching.match_without_version
    nvdtools.Wfn.Matching.match_attr text_eq nvdtools.Wfn.Wildcard.has_wildcard
    nvdtools.Wfn.Strings.match_str
both_installed = refl

returned-and_node_example :
    contains 1 (returned product_of installed false (1 ∷ 2 ∷ []) (node_matcher product_of on_linux))
    ≡ contains 1 (1 ∷ 2 ∷ [])
      && below product_of installed false on_linux 1
      && (each_match product_of installed false (1 ∷ 2 ∷ []) (some (of_product (codes "tar")) ∷ [])
          && each_child product_of installed false (1 ∷ 2 ∷ []) (
              one_node
                (node (some (of_product (codes "linux")) ∷ []) no_nodes (codes "OR") false)
                no_nodes))
unfolding text_eq nvdtools.Prelude.to_upper
returned-and_node_example =
    returned-and_node product_of installed false (1 ∷ 2 ∷ []) (some (of_product (codes "tar")) ∷ [])
      (one_node (node (some (of_product (codes "linux")) ∷ []) no_nodes (codes "OR") false)
        no_nodes)
      (codes "and") 1 refl ((refl, refl, tt), tt)
