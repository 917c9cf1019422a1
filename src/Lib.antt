-- ===== src/Lib.antt =====
-- kro-ui is a web dashboard for kro, the Kubernetes Resource Orchestrator. A Go server passes on
-- objects of the cluster, and the client, in TypeScript, works out all that the pages show. The
-- client's own logic is the library under web/src/lib, which is what this development models.
--
-- The parts and how they interact:
--
-- * Dag (web/src/lib/dag.ts): a ResourceGraphDefinition becomes a graph. Dag/Expressions has
--   extractExpressions and walkTemplate, which collect the CEL expressions of a template;
--   Dag/References has extractReferencedIds; Dag/Classify has extractForEachDisplay,
--   classifyResource, detectKroInstance and findChainedRgdName; Dag/Search is the breadth-first
--   search that buildDAGGraph runs twice; Dag/Graph puts them together as buildDAGGraph does, up to
--   the layout. Its loop over the resources, which makes nodes and edges in one pass, is two
--   functions here, resource_nodes and raw_edges: no round reads what another round made. The set
--   of edge keys is the list of the keys of the edges kept so far. The iterator variables that
--   extractReferencedIds excludes are empty at its only call.
-- * DagDiff (web/src/lib/dag-diff.ts): diffDAGGraphs merges the graphs of two revisions. A Map built
--   from a list is the list of its entries, each key at its first place with its last value.
-- * NodeState (web/src/lib/instanceNodeState.ts): buildNodeStateMap gives the nodes of a graph their
--   live state, from the conditions of the instance and its children. Kube has the accessors of
--   web/src/lib/k8s.ts that it uses. The result object is the list of its entries in the order of
--   insertion; `in` on it also answers for what Object.prototype has.
-- * LineDiff (web/src/lib/diff.ts): the side-by-side diff of two YAML texts by a table of longest
--   common subsequences.
-- * Highlighter (web/src/lib/highlighter.ts): the tokenizer of the code blocks.
-- * Events (web/src/lib/events.ts): groupByInstance and detectAnomalies, for any parser of dates and
--   printer of numbers; isConditionTransitionEvent.
-- * Display (web/src/lib/dag.ts): the helpers of the graph views, fittedWidth, fittedHeight, nodeBadge,
--   forEachLabel and nodeStateForNode, for any case conversion.
-- * CelLinter (web/src/lib/cel-linter.ts): lintCEL and its checks; an index into the expression is the
--   rest of the expression and what the index is inside of.
-- * Collection (web/src/lib/collection.ts): isItemReady. Telemetry (web/src/lib/telemetry.ts): the
--   counts of the telemetry panel.
-- * Health (web/src/lib/format.ts, with web/src/lib/conditions.ts in Conditions): extractInstanceHealth
--   and applyDegradedState; Health/Summary has the aggregations, Health/Erroring the ranking of RGDs
--   in error, Health/Revisions computeRevisionNodeDiff, Health/Age formatAge and mayBeStuck, with the
--   clock, the date parser and the printer of numbers as parameters.
-- * Format (web/src/lib/format.ts): the fields and the Ready status that the views show, and
--   abbreviateContext, whose pattern is written out as a chain of steps that may fail.
-- * Resolve (web/src/lib/resolveResourceName.ts): the cluster resource behind a node. Catalog
--   (web/src/lib/catalog.ts): which RGDs use which, the search and the complexity score.
-- * Generator (web/src/lib/generator.ts): the state of the RGD designer; Generator/Validation has
--   validateRGDState, with the comparison of numbers as a parameter, and Generator/SimpleSchema the
--   printer and the parser of type strings. The loops of validateRGDState over rows, which are alike,
--   are two functions here, one that sets issues and one that skips the rows that have one.
-- * Layout (web/src/lib/dag.ts): layoutDAG: the topological sort (Layout/Topology), the layers
--   (Layout/Layering), the crossing reduction (Layout/Order) and the coordinates (Layout). The height
--   of a layer without nodes is 0 here and not a finite number in the source, so the theorems on
--   coordinates are about layers that hold a node each.
-- * Collapse (web/src/lib/dag.ts): detectCollapseGroups, the advice on resources that one collection
--   could replace.
-- * Prelude has the shared text, lists and sets; Json has parsed JSON and the safe accessors.
--
-- How values correspond: a string is the list of its UTF-16 code units, a number is a natural one
-- (the source computes none that is negative here), undefined and null are `none` where the source
-- treats them alike, and an unknown value is a Json tree whose fields stand in the order of
-- Object.values with distinct keys. Conditions are objects, as their type says. Text.trim and the
-- regular expressions are written out as loops over the code units.
--
-- Bounds and fuel: the loop of backtrack has as much fuel as both texts have lines, the tokenizer's
-- loop as much as the line has characters, extractExpressions as much as the string has characters,
-- and a search as much as its first ids and the edges. Results of backtrack and of the tokenizer are
-- `none` without fuel, and the theorems say that a result is returned; the other two are compared
-- with a relation that has no bound. The topological sort has a round more than there are edges, since
-- an edge leads to the node of every round but the first; it is `none` without fuel as well.
--
-- Not modelled: in dag.ts the call of layoutDAG by buildDAGGraph, which sets the coordinates; in
-- generator.ts the generation and the parsing of whole YAML documents; sorts with comparators of the
-- runtime (sortCatalog, sortEvents, getRecentlyCreated, getMayBeStuck); the other files of web/src/lib;
-- the React components, hooks and pages, which render these values; and the Go server.
pub mod Prelude
pub mod Json
pub mod Kube
pub mod Dag
pub mod DagDiff
pub mod NodeState
pub mod LineDiff
pub mod Highlighter
pub mod Collection
pub mod Telemetry
pub mod Events
pub mod CelLinter
pub mod Display
pub mod Conditions
pub mod Health
pub mod Format
pub mod Resolve
pub mod Catalog
pub mod Generator
pub mod Layout
pub mod Collapse
