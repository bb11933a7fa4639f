-- ===== src/Samples/Wfnize.antt =====
-- `WFNize` and `String` at concrete inputs.
use nvdtools.Prelude.{codes, ◌≡◌, refl}
use nvdtools.Wfn.Fragment.{read, failed}
use nvdtools.Wfn.Wfnize.{wfnize}
use nvdtools.Wfn.Attributes.{new_attributes}
use nvdtools.Wfn.Display.{display}
use nvdtools.Wfn.Quotes.{wfnize-spelled, spelled}

wfnize-spelled_example : wfnize (codes "a b*1.2") ≡ read (codes "a_b\\*1\\.2")
unfolding spelled
wfnize-spelled_example = wfnize-spelled (codes "a b*1.2") refl

-- The rest behind a colon is lost.
colon_cuts : wfnize (codes "org.apache:commons") ≡ read (codes "org\\.apache")
unfolding wfnize
colon_cuts = refl

quoted_wildcard : wfnize (codes "1.8.\\*") ≡ read (codes "1\\.8\\.*")
unfolding wfnize
quoted_wildcard = refl

wildcard_inside : wfnize (codes "1.\\*.14") ≡ failed
unfolding wfnize
wildcard_inside = refl

displayed :
    display (record (new_attributes (codes "")) {
      part = codes "a";
      version = codes "-";
      update = codes "sp?";
    })
    ≡ codes
        "wfn:[part=\"a\",vendor=ANY,product=ANY,version=NA,update=\"sp?\",edition=ANY,language=ANY]"
unfolding display
displayed = refl
