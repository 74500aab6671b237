-- ===== src/Federation/Tests.antt =====
-- A merge of two federations of federation.rs, each with one tool.
use gaugemesh.Base.{◌≡◌, refl, String, [], ◌∷◌, ok, err}
use gaugemesh.Digest.{null}
use gaugemesh.Context.{read_only}
use gaugemesh.Task.Samples.{capability}
use gaugemesh.Federation.{
  Federation, FederatedTool, alias_collision, merge, insert_tool, find_tool, find_resource,
  find_prompt,
}
use gaugemesh.Federation.Merging.{Finds, Unites, merge-Finds}

abbrev tool_of : String → FederatedTool
tool_of alias = record {
  identity = capability;
  native_name = "native";
  alias = alias;
  description = "a tool";
  input_schema = null;
  side_effect = read_only;
  fixture_result = null;
}

abbrev no_catalogues : Federation
no_catalogues = record { tools = []; resources = []; prompts = []; templates = [] }

abbrev mine : Federation
mine = record no_catalogues { tools = ("one", tool_of "one") ∷ [] }

abbrev other : Federation
other = record no_catalogues { tools = ("two", tool_of "two") ∷ [] }

abbrev both : Federation
both = record no_catalogues { tools = ("one", tool_of "one") ∷ ("two", tool_of "two") ∷ [] }

inserts : insert_tool no_catalogues (tool_of "one") ≡ ok mine
unfolding insert_tool
inserts = refl

collides : insert_tool mine (tool_of "one") ≡ err alias_collision
unfolding insert_tool
collides = refl

merges : merge mine other ≡ ok both
unfolding merge
merges = refl

merge-Finds_example :
    Finds find_tool both mine other
    × Finds find_resource both mine other
    × Finds find_prompt both mine other
    × Unites both.templates mine.templates other.templates
merge-Finds_example = merge-Finds mine other both ((refl, tt), tt, tt, tt) merges
