-- ===== src/Generated/Para.antt =====
-- `docParaTypeSub` of gr-gtsrc/docs/doxygen/doxyxml/generated/compound.py: a paragraph sorts its children
-- into text and references, parameter lists, and simple sections.
use hachoir.Prelude.{List, [], ◌∷◌, ◌++◌, Text, codes, text_eq, if◌then◌else◌}

-- a child in the document: a text, an element with its name, or anything else
pub data Node (N : Type 0) : Type 0 where
  text_node : Text → Node N
  element_node : Text → N → Node N
  other_node : Node N

-- what the generated classes build from an element
pub record Builders (N : Type 0) (R : Type 0) (P : Type 0) (S : Type 0) : Type 0 where
  pub reference : N → R
  pub param_list : N → P
  pub simple_sect : N → S

pub data Content (R : Type 0) : Type 0 where
  mixed_text : Text → Content R
  reference : R → Content R

pub record DocPara (R : Type 0) (P : Type 0) (S : Type 0) : Type 0 where
  pub parameterlist : List P
  pub simplesects : List S
  pub content : List (Content R)

-- `docParaTypeSub.__init__`
abbrev pub empty_para : {R P S : Type 0} → DocPara R P S
empty_para = record { parameterlist = []; simplesects = []; content = [] }

module _ {N R P S : Type 0} where
  -- `docParaTypeSub.buildChildren`, of one child
  unfoldable pub build_child : Builders N R P S → Node N → DocPara R P S → DocPara R P S
  build_child b (text_node t) p = record p { content = p.content ++ mixed_text t ∷ [] }
  build_child b (element_node name n) p =
      if text_eq name (codes "ref")
      then record p { content = p.content ++ reference (b.reference n) ∷ [] }
      else if text_eq name (codes "parameterlist")
      then record p { parameterlist = p.parameterlist ++ b.param_list n ∷ [] }
      else if text_eq name (codes "simplesect")
      then record p { simplesects = p.simplesects ++ b.simple_sect n ∷ [] }
      else p
  build_child b other_node p = p

  -- all children, in order
  unfoldable pub build : Builders N R P S → List (Node N) → DocPara R P S → DocPara R P S
  unfolding build_child
  build b [] p = p
  build b (n ∷ ns) p = build b ns (build_child b n p)
