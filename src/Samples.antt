-- ===== src/Samples.antt =====
-- Tests of the models, and the theorems at concrete inputs.
mod Rpm
mod Wfn
mod Nvd
mod CvssTwo
mod CvssThree
mod Bindings
mod Feed
mod AndNode
mod Sql
mod Cache
mod Diff
mod Uri
mod Redhat
mod Client
mod Lininfosec
mod Cpedict
mod Scores
mod Columns
mod Queue
mod Wfnize
